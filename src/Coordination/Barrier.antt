-- ===== src/Coordination/Barrier.antt =====
-- coordination.go, `BarrierCore` and `BarrierCell`, and the quorum gate.
use lazily_go.Base.{
  ◌*◌, ◌+◌, ◌/◌, if◌then◌else◌, ◌∙◌, ◌∷◌, ◌≡◌, ◌≤◌, Bool, Comparable, List, [], arith, equal, false,
  leb, length, ltb, none, refl, some, suc, true, ℕ, ℕ_comparable, bool_comparable,
  option_comparable,
}
use lazily_go.Cell.{SourceCell, new_source, set_value, value-set_value}
use lazily_go.Base.Word.{add_u64, max_uint64}
use lazily_go.Base.Assoc

-- `BarrierCore`: the map of arrivals is an association list with no value.
pub record BarrierCore {ℓ} (P : Type ℓ) : Type ℓ where
  pub required : ℕ
  pub arrived : List (P × Unit {0})

-- `BarrierCell`.
pub record BarrierCell {ℓ} (P : Type ℓ) : Type ℓ where
  pub core : BarrierCore P
  pub is_open : SourceCell Bool

module _ {ℓ} {P : Type ℓ} where
  unfoldable pub new_barrier_core : ℕ → BarrierCore P
  new_barrier_core required = record { required = required; arrived = [] }

  -- `BarrierCore.Count`.
  abbrev pub arrivals : BarrierCore P → ℕ
  arrivals c = length c.arrived

  unfoldable pub is_open : BarrierCore P → Bool
  is_open c = leb c.required (arrivals c)

  -- `NewBarrierCell` and `Quorum`.
  unfoldable pub new_barrier_cell : ℕ → BarrierCell P
  unfolding new_barrier_core is_open new_source
  new_barrier_cell required =
      let core : BarrierCore P = new_barrier_core required in
      record { core = core; is_open = new_source (is_open core) }

  unfoldable pub quorum : ℕ → BarrierCell P
  unfolding new_barrier_cell
  quorum total_peers = new_barrier_cell (add_u64 (total_peers / 2) 1)

module _ {ℓ} {P : Type ℓ} ⦃e : Comparable P⦄ where
  unfoldable pub arrive : BarrierCore P → P → BarrierCore P × Bool
  unfolding is_open
  arrive c peer =
      let c' : BarrierCore P = record c { arrived = Assoc.put peer tt c.arrived } in
      (c', is_open c')

  -- `BarrierCell.Arrive`.
  unfoldable pub cell_arrive : BarrierCell P → P → BarrierCell P × Bool
  unfolding arrive set_value
  cell_arrive c peer =
      let (core, opened) = arrive c.core peer in
      (record c { core = core; is_open = set_value c.is_open (is_open core) }, opened)

  -- The peer has arrived.
  abbrev pub has_arrived : BarrierCore P → P → Bool
  has_arrived c p = elim (Assoc.get p c.arrived) [ none ↦ false | some _ ↦ true ]

  length-put :
      (p : P) (m : List (P × Unit {0}))
      → length (Assoc.put p tt m)
        ≡ (elim (Assoc.get p m) [ none ↦ suc (length m) | some _ ↦ length m ])
  unfolding Assoc.put Assoc.get
  length-put p [] = refl
  length-put p ((q, tt) ∷ m) = ground (arith, length-put p m)

  -- The arrivals one after the other.
  pub arrive_all : BarrierCell P → List P → BarrierCell P
  arrive_all c [] = c
  arrive_all c (p ∷ ps) = arrive_all (cell_arrive c p).0 ps

  abbrev pub seen_before : P → List P → Bool
  seen_before p [] = false
  seen_before p (q ∷ qs) = if equal q p then true else seen_before p qs

  -- How many peers stand in the list, each counted once, without those that were seen.
  pub distinct : List P → List P → ℕ
  distinct seen [] = 0
  distinct seen (p ∷ ps) =
      let more = distinct (p ∷ seen) ps in if seen_before p seen then more else suc more

  -- The barrier has seen these peers, and its reader shows whether the gate is open.
  pub record HasSeen (seen : List P) (c : BarrierCell P) : Type ℓ where
    pub same : (p : P) → has_arrived c.core p ≡ seen_before p seen
    pub reader : c.is_open.value ≡ is_open c.core

  cell_arrive-HasSeen :
      (seen : List P) (c : BarrierCell P) (p : P)
      → HasSeen seen c
      → HasSeen (p ∷ seen) (cell_arrive c p).0
  unfolding cell_arrive
  cell_arrive-HasSeen seen c p v = record {
    same = λ q. ground (arith, Assoc.get-put p q tt c.core.arrived, v.same q);
    reader = value-set_value c.is_open (is_open (arrive c.core p).0);
  }

  arrivals-cell_arrive :
      (seen : List P) (c : BarrierCell P) (p : P)
      → HasSeen seen c
      → arrivals (cell_arrive c p).0.core
        ≡ (if seen_before p seen then arrivals c.core else suc (arrivals c.core))
  unfolding cell_arrive
  arrivals-cell_arrive seen c p v = ground (arith, length-put p c.core.arrived, v.same p)

  arrive_all_counts :
      (seen ps : List P) (c : BarrierCell P)
      → HasSeen seen c
      → (arrivals (arrive_all c ps).core ≡ arrivals c.core + distinct seen ps)
        × ((arrive_all c ps).core.required ≡ c.core.required)
        × ((arrive_all c ps).is_open.value ≡ is_open (arrive_all c ps).core)
  unfolding arrive_all distinct
  arrive_all_counts seen [] c v = (omega arith, refl, v.reader)
  arrive_all_counts seen (p ∷ ps) c v =
      let (count, req, reader) =
        arrive_all_counts (p ∷ seen) ps (cell_arrive c p).0 (cell_arrive-HasSeen seen c p v) in
      (ground (arith, count, arrivals-cell_arrive seen c p v), req ∙ required, reader)
    where
      required : (cell_arrive c p).0.core.required ≡ c.core.required
      required = unfold cell_arrive in refl

  -- A quorum gate over `n` peers opens exactly when a strict majority of them has arrived, each counted
  -- once however often it arrives, and its reader shows it.
  quorum_majority :
      (n : ℕ) (ps : List P)
      → n ≤ max_uint64
      → (arrive_all (quorum n) ps).is_open.value ≡ ltb n (2 * distinct [] ps)
  unfolding quorum is_open
  quorum_majority n ps b =
      let (count, req, reader) = arrive_all_counts [] ps (quorum n) start in
      reader ∙ rw (count, req) (ground arith)
    where
      start : HasSeen [] (quorum n)
      start = record { same = λ p. unfold Assoc.get in refl; reader = refl }
