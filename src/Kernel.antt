-- ===== src/Kernel.antt =====
-- core.go: the Cell kernel. The nodes of a context stand in a list, and a node is named by its place
-- in it; a handle, a map key and an edge of the code are such places. A map used as a set of nodes
-- is a list, whose order stands for the order of `range`. A compute closure is a program of tracked
-- reads: it reads a node through its `Compute` view, goes on from the value, and returns a value.
pub mod Round
pub mod Mark
pub mod Cone
pub mod Invalidate
pub mod Pull
mod Tests
use lazily_go.Base.{
  ◌&&◌, ◌++◌, ◌-◌, ◌==◌, if◌then◌else◌, ◌||◌, ◌∷◌, Bool, List, Option, [], false, get_elem?, ltb,
  map, none, not, set, some, suc, true, zero, ℕ,
}

-- What a closure does through `Get(c, handle)`.
pub data Program {ℓ} (V : Type ℓ) : Type ℓ where
  done : V → Program V
  read : ℕ → (V → Program V) → Program V

-- The three concrete nodes: `Source`, `Computed` and `Effect`.
pub data NodeKind : Type 0 where
  source computed effect : NodeKind

-- `reactiveBase` with the fields of the three nodes that embed it; `kind` says which are in use.
pub record Node {ℓ} (V : Type ℓ) : Type ℓ where
  pub kind : NodeKind
  pub dependents : List ℕ
  pub dependencies : List ℕ
  pub disposed : Bool
  pub dirty : Bool
  pub force_recompute : Bool
  -- of `Source` and `Computed`
  pub value : V
  -- of `Computed`
  pub compute : Program V
  pub equals : Option (V → V → Bool)
  pub cached : Bool
  pub has_value : Bool
  pub refreshing : Bool
  -- of `Effect`
  pub active : Bool
  pub force_run : Bool

-- `Context`, without the arena of handles, the eager side table and the drain report. The pending
-- effects are those from `effectsHead` on.
pub record Context {ℓ} (V : Type ℓ) : Type ℓ where
  pub nodes : List (Node V)
  pub cached_count : ℕ
  pub batch_depth : ℕ
  pub batched_cells : List ℕ
  pub pending_effects : List ℕ
  pub scheduled_effects : List ℕ
  pub flushing_effects : Bool
  pub disposing : ℕ

abbrev pub member : ℕ → List ℕ → Bool
member n [] = false
member n (m ∷ ms) = if n == m then true else member n ms

abbrev pub lazily_marked : List ℕ → List (ℕ × Bool)
lazily_marked = map (λ d. (d, false))

module _ {ℓ} {V : Type ℓ} where
  abbrev pub node : Context V → ℕ → Option (Node V)
  node c n = get_elem? c.nodes n

  abbrev pub put_node : Context V → ℕ → Node V → Context V
  put_node c n nb = record c { nodes = set c.nodes n nb }

  -- `scheduleEffect`.
  unfoldable pub schedule_effect : Context V → ℕ → Context V
  schedule_effect c n = if member n c.scheduled_effects then c else record c {
    scheduled_effects = n ∷ c.scheduled_effects;
    pending_effects = c.pending_effects ++ n ∷ [];
  }

  -- `Effect.markStale`.
  unfoldable pub mark_stale : Context V → ℕ → Node V → Bool → Context V
  unfolding schedule_effect
  mark_stale c n e force =
      if ltb 0 c.disposing
      then c
      else schedule_effect (if force then put_node c n (record e { force_run = true }) else c) n

  -- `Computed.onInvalidate`, after the walk has raised `forceRecompute`.
  unfoldable pub stale_node : Node V → Bool → Node V
  stale_node nb force = record nb {
    force_recompute = if force then true else nb.force_recompute;
    dirty = true;
    cached = false;
  }

  unfoldable pub on_invalidate : Context V → ℕ → Node V → Bool → Context V
  unfolding stale_node
  on_invalidate c n nb force = record c {
    nodes = set c.nodes n (stale_node nb force);
    cached_count = if nb.cached then c.cached_count - 1 else c.cached_count;
  }

  -- `!nb.dirty || (entry.force && !nb.forceRecompute)`.
  abbrev pub learns : Node V → Bool → Bool
  learns nb force = not nb.dirty || (force && not nb.force_recompute)

  -- One round of `markCone`: the context, and the entries that the round pushes.
  unfoldable pub mark_node :
      NodeKind → Context V → ℕ → Node V → Bool → Bool → Context V × List (ℕ × Bool)
  unfolding mark_stale on_invalidate
  mark_node effect c n nb force schedule = (if schedule then mark_stale c n nb force else c, [])
  mark_node computed c n nb force schedule =
      (on_invalidate c n nb force, if learns nb force then lazily_marked nb.dependents else [])
  mark_node source c n nb force schedule = (c, lazily_marked nb.dependents)

  unfoldable pub mark_found : Context V → ℕ → Node V → Bool → Bool → Context V × List (ℕ × Bool)
  unfolding mark_node
  mark_found c n nb force schedule =
      if nb.disposed then (c, []) else mark_node nb.kind c n nb force schedule

  unfoldable pub mark_entry : Context V → ℕ × Bool → Bool → Context V × List (ℕ × Bool)
  unfolding mark_found
  mark_entry c (n, force) schedule = elim (node c n) [
    | none ↦ (c, [])
    | some nb ↦ mark_found c n nb force schedule
  ]

  -- `markCone`, on fuel: the head of the list is the top of the stack.
  pub mark_cone : ℕ → Context V → List (ℕ × Bool) → Bool → Option (Context V)
  mark_cone fuel c [] schedule = some c
  mark_cone zero c (entry ∷ stack) schedule = none
  mark_cone (suc fuel) c (entry ∷ stack) schedule =
      let (c', pushed) = mark_entry c entry schedule in mark_cone fuel c' (pushed ++ stack) schedule

  -- `reactiveBase.markDependents`.
  unfoldable pub mark_dependents : ℕ → Context V → Node V → Bool → Option (Context V)
  unfolding mark_cone
  mark_dependents fuel c nb schedule =
      mark_cone fuel c (map (λ d. (d, true)) nb.dependents) schedule

  -- `reactiveBase.invalidate`; `Effect.onInvalidate` is `markStale(true)`, that of a `Source` nothing.
  invalidate_node : NodeKind → ℕ → Context V → ℕ → Node V → Option (Context V)
  unfolding mark_cone mark_stale mark_dependents
  invalidate_node computed fuel c n nb = mark_cone fuel c ((n, true) ∷ []) true
  invalidate_node source fuel c n nb = mark_dependents fuel c nb true
  invalidate_node effect fuel c n nb = mark_dependents fuel (mark_stale c n nb true) nb true

  unfoldable pub invalidate : ℕ → Context V → ℕ → Option (Context V)
  unfolding invalidate_node
  invalidate fuel c n = elim (node c n) [
    | none ↦ some c
    | some nb ↦ invalidate_node nb.kind fuel c n nb
  ]
