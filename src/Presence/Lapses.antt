-- ===== src/Presence/Lapses.antt =====
-- presence.go, `EphemeralMapCore`: what a reader sees, whenever the clock was ticked.
use lazily_go.Base.{
  if◌then◌else◌, ◌∙◌, ◌∷◌, ◌≡◌, ◌≤◌, Bool-cases, Comparable, List, Option, [], arith, equal, inl,
  inr, leb, none, refl, some, subst, ℕ, ℕ_comparable, bool_comparable, option_comparable,
}
use lazily_go.Base.Word.{add_u64}
use lazily_go.Base.Assoc
use lazily_go.Presence.{
  EphemeralEntry, EphemeralMapCore, live, live_entries, map_evict, map_set, map_tick, unlapsed,
  map_get, new_map_core, present_at,
}

-- A call of the map: `Set`, `Evict` or `Tick`.
pub data MapOp {ℓ κ} (K : Type ℓ) (V : Type κ) : Type (ℓ ⊔ κ) where
  sets : K → V → ℕ → ℕ → MapOp K V
  evicts : K → MapOp K V
  ticks : ℕ → MapOp K V

module _ {ℓ κ} {K : Type ℓ} {V : Type κ} ⦃c : Comparable K⦄ where
  abbrev map_step : EphemeralMapCore K V → MapOp K V → EphemeralMapCore K V
  map_step m (sets k v now ttl) = map_set m k v now ttl
  map_step m (evicts k) = map_evict m k
  map_step m (ticks now) = map_tick m now

  abbrev pub map_run : EphemeralMapCore K V → List (MapOp K V) → EphemeralMapCore K V
  map_run m [] = m
  map_run m (op ∷ ops) = map_run (map_step m op) ops

  -- What a call leaves of a key when nothing is ever swept: its last write, unless it was evicted since.
  abbrev noted : K → Option (EphemeralEntry V) → MapOp K V → Option (EphemeralEntry V)
  noted key e (sets k v now ttl) =
      if equal k key then some (record { value = v; expiry = add_u64 now ttl }) else e
  noted key e (evicts k) = if equal k key then none else e
  noted key e (ticks now) = e

  abbrev pub remembered :
      K → Option (EphemeralEntry V) → List (MapOp K V) → Option (EphemeralEntry V)
  remembered key e [] = e
  remembered key e (op ∷ ops) = remembered key (noted key e op) ops

  -- No tick of the run is later than `now`.
  abbrev pub TickedBy : ℕ → List (MapOp K V) → Type 0
  TickedBy now [] = Unit
  TickedBy now (ticks t ∷ ops) = (t ≤ now) × TickedBy now ops
  TickedBy now (_ ∷ ops) = TickedBy now ops

  get-unlapsed_absent :
      (key : K) (t : ℕ) (es : List (K × EphemeralEntry V))
      → Assoc.get key es ≡ none
      → Assoc.get key (unlapsed t es) ≡ none
  unfolding Assoc.get
  get-unlapsed_absent key t [] h = h
  get-unlapsed_absent key t ((k, e) ∷ es) h = ground (arith, h, get-unlapsed_absent key t es)

  unlapsed-Distinct :
      (t : ℕ) (es : List (K × EphemeralEntry V))
      → Assoc.Distinct es
      → Assoc.Distinct (unlapsed t es)
  unlapsed-Distinct t [] d = d
  unlapsed-Distinct t ((k, e) ∷ es) d = elim (Bool-cases (leb e.expiry t)) [
    | inl lapsed ↦ rw lapsed (unlapsed-Distinct t es d.1)
    | inr kept ↦ rw kept (get-unlapsed_absent k t es d.0, unlapsed-Distinct t es d.1)
  ]

  -- A sweep no later than `now` takes nothing that is live at `now`.
  live-unlapsed :
      (key : K) (t now : ℕ) (es : List (K × EphemeralEntry V))
      → t ≤ now
      → Assoc.Distinct es
      → live now (Assoc.get key (unlapsed t es)) ≡ live now (Assoc.get key es)
  unfolding Assoc.get
  live-unlapsed key t now [] h d = refl
  live-unlapsed key t now ((k, e) ∷ es) h d = elim (Bool-cases (equal k key)) [
    | inl same ↦
        let absent : Assoc.get key es ≡ none =
          subst (λ x. Assoc.get x es ≡ none) ((c.eq_iff k key).0 same) d.0 in
        ground (arith, same, absent, h, get-unlapsed_absent key t es absent)
    | inr other ↦ ground (arith, other, live-unlapsed key t now es h d.1)
  ]

  get-live_entries :
      (key : K) (now : ℕ) (es : List (K × EphemeralEntry V))
      → Assoc.Distinct es
      → Assoc.get key (live_entries now es) ≡ live now (Assoc.get key es)
  unfolding Assoc.get
  get-live_entries key now [] d = refl
  get-live_entries key now ((k, e) ∷ es) d =
      let rest = get-live_entries key now es d.1 in
      elim (Bool-cases (equal k key)) [
        | inl same ↦
            let absent : Assoc.get key es ≡ none =
              subst (λ x. Assoc.get x es ≡ none) ((c.eq_iff k key).0 same) d.0 in
            ground (arith, same, absent, rest)
        | inr other ↦ ground (arith, other, rest)
      ]

  map_run-lives :
      (ops : List (MapOp K V)) (m : EphemeralMapCore K V) (e : Option (EphemeralEntry V))
      → (key : K) (now : ℕ) → TickedBy now ops
      → Assoc.Distinct m.entries
      → live now (Assoc.get key m.entries) ≡ live now e
      → let m' = map_run m ops in
        (live now (Assoc.get key m'.entries) ≡ live now (remembered key e ops))
        × Assoc.Distinct m'.entries
  unfolding map_set map_evict map_tick
  map_run-lives [] m e key now by d same = (same, d)
  map_run-lives (sets k v stamp ttl ∷ ops) m e key now by d same =
      let entry : EphemeralEntry V = record { value = v; expiry = add_u64 stamp ttl } in
      map_run-lives ops (map_set m k v stamp ttl) (noted key e (sets k v stamp ttl)) key now by
        (Assoc.put-Distinct k entry m.entries d)
        (rw (Assoc.get-put k key entry m.entries)
          (elim (Bool-cases (equal k key)) [ inl hit ↦ rw hit refl | inr miss ↦ rw miss same ]))
  map_run-lives (evicts k ∷ ops) m e key now by d same =
      map_run-lives ops (map_evict m k) (noted key e (evicts k)) key now by
        (Assoc.delete-Distinct k m.entries d)
        (rw (Assoc.get-delete k key m.entries)
          (elim (Bool-cases (equal k key)) [ inl hit ↦ rw hit refl | inr miss ↦ rw miss same ]))
  map_run-lives (ticks t ∷ ops) m e key now by d same =
      map_run-lives ops (map_tick m t) e key now by.1 (unlapsed-Distinct t m.entries d)
        (live-unlapsed key t now m.entries by.0 d ∙ same)

  -- After any calls, and at any time that no `Tick` among them was later than, `Get` and the snapshot of
  -- `Present` both give a key the value of its last `Set` since it was evicted, if that has not lapsed:
  -- when the map was ticked, how often, and in which order is invisible.
  pub map_run-sees :
      (ops : List (MapOp K V)) (key : K) (now : ℕ)
      → TickedBy now ops
      → let m = map_run new_map_core ops in
        (map_get m key now ≡ live now (remembered key none ops))
        × (Assoc.get key (present_at m now) ≡ live now (remembered key none ops))
  unfolding map_get present_at Assoc.get
  map_run-sees ops key now by =
      let (lives, distinct) = map_run-lives ops new_map_core none key now by tt refl in
      (lives, get-live_entries key now (map_run new_map_core ops).entries distinct ∙ lives)
