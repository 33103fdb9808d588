-- ===== src/Kernel/Round.antt =====
-- core.go, one round of `markCone`: what it changes, what it pushes, and the work that it gives up.
use lazily_go.Base.{
  ◌*◌, ◌+◌, if◌then◌else◌, ◌∷◌, ◌≡◌, ◌≢◌, ◌≤◌, ◌⊎◌, All, Bool, Bool-cases, List, Option-cases, [],
  ap, arith, false, if_elim, inl, inr, length, ltb, map, map-set_same, none, refl, set, some, suc,
  total, total-set, true, ℕ,
}
use lazily_go.Kernel.{
  Context, Node, lazily_marked, learns, node, on_invalidate, source, mark_stale, schedule_effect,
  stale_node, NodeKind, computed, effect, mark_entry, mark_node, mark_found,
}

-- How much a node can still learn: to be dirty, and to be forced.
abbrev pub level_left {ℓ} : {V : Type ℓ} → Node V → ℕ
level_left nb = (if nb.dirty then 0 else 1) + (if nb.force_recompute then 0 else 1)

-- The entries that a node can still push.
abbrev pub work_left {ℓ} : {V : Type ℓ} → Node V → ℕ
work_left nb = level_left nb * length nb.dependents

pub length-lazily_marked : (ds : List ℕ) → length (lazily_marked ds) ≡ length ds
length-lazily_marked [] = refl
length-lazily_marked (d ∷ ds) = ap suc (length-lazily_marked ds)

abbrev pub places : List (ℕ × Bool) → List ℕ
places = map (λ e. e.0)

pub places-lazily_marked : (ds : List ℕ) → places (lazily_marked ds) ≡ ds
places-lazily_marked [] = refl
places-lazily_marked (d ∷ ds) = ap (◌∷◌ d) (places-lazily_marked ds)

-- A node without the marks that the walk sets.
abbrev pub shape {ℓ} : {V : Type ℓ} → Node V → Node V
shape nb = record nb { dirty = false; force_recompute = false; cached = false; force_run = false }

module _ {ℓ} {V : Type ℓ} where
  abbrev pub mark_bound : Context V → List (ℕ × Bool) → ℕ
  mark_bound c stack = length stack + total work_left c.nodes

  -- The node is no `Source`.
  abbrev pub NoSource : Context V → ℕ → Type ℓ
  NoSource c n = (nb : Node V) → node c n ≡ some nb → nb.kind ≢ source

  -- No `Source` is a dependent: a source reads nothing.
  abbrev pub SourcesReadNothing : Context V → Type ℓ
  SourcesReadNothing c = (n : ℕ) (nb : Node V) → node c n ≡ some nb → All (NoSource c) nb.dependents

  -- The two contexts have the same nodes up to the marks.
  abbrev pub SameShape : Context V → Context V → Type ℓ
  SameShape c' c = map shape c'.nodes ≡ map shape c.nodes

  stale_work :
      (nb : Node V) (force : Bool)
      → work_left (stale_node nb force)
          + length (if learns nb force then lazily_marked nb.dependents else [])
        ≤ work_left nb
  unfolding stale_node
  stale_work nb force = ground (arith, length-lazily_marked nb.dependents)

  on_invalidate_work :
      (c : Context V) (n : ℕ) (nb : Node V) (force : Bool)
      → node c n ≡ some nb
      → total work_left (on_invalidate c n nb force).nodes
          + length (if learns nb force then lazily_marked nb.dependents else [])
        ≤ total work_left c.nodes
  unfolding on_invalidate
  on_invalidate_work c n nb force e =
      omega (arith, total-set work_left c.nodes n (stale_node nb force) nb e, stale_work nb force)

  nodes-schedule_effect : (c : Context V) (n : ℕ) → (schedule_effect c n).nodes ≡ c.nodes
  unfolding schedule_effect
  nodes-schedule_effect c n = ground arith

  -- The nodes after `markStale`: those that were there, or the effect is forced to run.
  pub nodes-mark_stale :
      (c : Context V) (n : ℕ) (e : Node V) (force : Bool)
      → ((mark_stale c n e force).nodes ≡ c.nodes)
        ⊎ ((mark_stale c n e force).nodes ≡ set c.nodes n (record e { force_run = true }))
  unfolding mark_stale
  nodes-mark_stale c n e force = elim (Bool-cases (ltb 0 c.disposing)) [
    | inl busy ↦ inl (rw (busy, mark_stale) refl)
    | inr idle ↦ elim (Bool-cases force) [
      | inl f ↦ inr (rw (idle, f, mark_stale) (nodes-schedule_effect _ n))
      | inr f ↦ inl (rw (idle, f, mark_stale) (nodes-schedule_effect c n))
    ]
  ]

  -- A round pushes no more than the work that its node gives up, and changes nothing but marks.
  abbrev pub Round : Context V → Context V × List (ℕ × Bool) → Type ℓ
  Round c r = (total work_left r.0.nodes + length r.1 ≤ total work_left c.nodes) × SameShape r.0 c

  mark_stale-Round :
      (c : Context V) (n : ℕ) (e : Node V) (force : Bool)
      → node c n ≡ some e
      → Round c (mark_stale c n e force, [])
  mark_stale-Round c n e force h = elim (nodes-mark_stale c n e force) [
    | inl same ↦ rw same (omega arith, refl)
    | inr new ↦ rw new (
      omega (arith, total-set work_left c.nodes n (record e { force_run = true }) e h),
      map-set_same shape c.nodes n (record e { force_run = true }) e h refl,
    )
  ]

  mark_node-Round :
      (k : NodeKind) (c : Context V) (n : ℕ) (nb : Node V) (force schedule : Bool)
      → k ≢ source
      → node c n ≡ some nb
      → Round c (mark_node k c n nb force schedule)
  unfolding mark_node
  mark_node-Round source c n nb force schedule s h = absurd (s refl)
  mark_node-Round computed c n nb force schedule s h = (
    on_invalidate_work c n nb force h,
    map-set_same shape c.nodes n (stale_node nb force) nb h refl,
  )
  mark_node-Round effect c n nb force true s h = mark_stale-Round c n nb force h
  mark_node-Round effect c n nb force false s h = (omega arith, refl)

  pub mark_entry_found :
      (c : Context V) (n : ℕ) (nb : Node V) (force schedule : Bool)
      → node c n ≡ some nb
      → mark_entry c (n, force) schedule ≡ mark_found c n nb force schedule
  unfolding mark_entry
  mark_entry_found c n nb force schedule e = rw (e, mark_entry) refl

  pub mark_entry_missing :
      (c : Context V) (n : ℕ) (force schedule : Bool)
      → node c n ≡ none
      → mark_entry c (n, force) schedule ≡ (c, [])
  unfolding mark_entry
  mark_entry_missing c n force schedule e = rw (e, mark_entry) refl

  mark_found-Round :
      (c : Context V) (n : ℕ) (nb : Node V) (force schedule : Bool)
      → nb.kind ≢ source
      → node c n ≡ some nb
      → Round c (mark_found c n nb force schedule)
  unfolding mark_found
  mark_found-Round c n nb force schedule s e =
      if_elim (Round c) nb.disposed (λ _. (omega arith, refl))
        (λ _. mark_node-Round nb.kind c n nb force schedule s e)

  pub mark_entry-Round :
      (c : Context V) (entry : ℕ × Bool) (schedule : Bool)
      → NoSource c entry.0
      → Round c (mark_entry c entry schedule)
  mark_entry-Round c (n, force) schedule s = elim (Option-cases (node c n)) [
    | inl e ↦ rw (mark_entry_missing c n force schedule e) (omega arith, refl)
    | inr (nb, e) ↦
        rw (mark_entry_found c n nb force schedule e)
          (mark_found-Round c n nb force schedule (s nb e) e)
  ]

  -- What a round pushes are dependents of its node.
  abbrev pub Pushes : Context V → ℕ → List (ℕ × Bool) → Type ℓ
  Pushes c n pushed =
      (pushed ≡ [])
      ⊎ ((nb : Node V) × (node c n ≡ some nb) × (pushed ≡ lazily_marked nb.dependents))

  mark_node-Pushes :
      (k : NodeKind) (c : Context V) (n : ℕ) (nb : Node V) (force schedule : Bool)
      → node c n ≡ some nb
      → Pushes c n (mark_node k c n nb force schedule).1
  unfolding mark_node
  mark_node-Pushes source c n nb force schedule e = inr (nb, e, refl)
  mark_node-Pushes effect c n nb force schedule e = inl refl
  mark_node-Pushes computed c n nb force schedule e =
      if_elim (Pushes c n) (learns nb force) (λ _. inr (nb, e, refl)) (λ _. inl refl)

  mark_found-Pushes :
      (c : Context V) (n : ℕ) (nb : Node V) (force schedule : Bool)
      → node c n ≡ some nb
      → Pushes c n (mark_found c n nb force schedule).1
  unfolding mark_found
  mark_found-Pushes c n nb force schedule e =
      if_elim (λ (r : Context V × List (ℕ × Bool)). Pushes c n r.1) nb.disposed (λ _. inl refl)
        (λ _. mark_node-Pushes nb.kind c n nb force schedule e)

  pub mark_entry-Pushes :
      (c : Context V) (entry : ℕ × Bool) (schedule : Bool)
      → Pushes c entry.0 (mark_entry c entry schedule).1
  mark_entry-Pushes c (n, force) schedule = elim (Option-cases (node c n)) [
    | inl e ↦ inl (rw (mark_entry_missing c n force schedule e) refl)
    | inr (nb, e) ↦
        rw (mark_entry_found c n nb force schedule e) (mark_found-Pushes c n nb force schedule e)
  ]
