-- ===== src/Kernel/Pull.antt =====
-- core.go, the pull half: `Get`, `refresh`, `recomputeNow` and the edges that a recompute renews. A
-- panic leaves the context as it stands, since nothing on this path recovers. Recursion is on fuel,
-- a level of the graph for each unit; the walk of `markDependents` takes the fuel that Kernel/Mark
-- shows to be enough. `order` is the order in which `range` visits a set.
mod Tests
use lazily_go.Base.{
  ◌&&◌, ◌+◌, ◌++◌, ◌==◌, if◌then◌else◌, ◌||◌, ◌∷◌, Bool, List, Option, [], false, none, not, some,
  suc, true, zero, ℕ,
}
use lazily_go.Kernel.{
  Context, Node, Program, computed, done, effect, lazily_marked, mark_dependents, member, node,
  put_node, read, source, NodeKind,
}
use lazily_go.Kernel.Round.{mark_bound}

pub data Outcome {ℓ κ} (S : Type ℓ) (A : Type κ) : Type (ℓ ⊔ κ) where
  finished : S → A → Outcome S A
  panicked : S → Outcome S A
  starved : Outcome S A

infixl 5 ◌>>=◌
abbrev pub ◌>>=◌ {ℓ κ μ} :
    {S : Type ℓ} {A : Type κ} {B : Type μ} → Outcome S A → (S → A → Outcome S B) → Outcome S B
finished s a >>= f = f s a
panicked s >>= f = panicked s
starved >>= f = starved

-- `delete` from a set of nodes.
abbrev pub without : ℕ → List ℕ → List ℕ
without n [] = []
without n (m ∷ ms) = if n == m then without n ms else m ∷ without n ms

-- An insertion into a set of nodes.
abbrev pub with_member : ℕ → List ℕ → List ℕ
with_member n ns = if member n ns then ns else n ∷ ns

-- `refresh` of a node, and whether it reports a change.
abbrev pub Refresh {ℓ} : Type ℓ → Type ℓ
Refresh V = Context V → ℕ → Outcome (Context V) Bool

module _ {ℓ} {V : Type ℓ} where
  -- A node as its constructor leaves it; `blank` is the zero value.
  abbrev pub new_node : NodeKind → V → Program V → Option (V → V → Bool) → Node V
  new_node kind blank compute equals = record {
    kind = kind;
    dependents = [];
    dependencies = [];
    disposed = false;
    dirty = false;
    force_recompute = false;
    value = blank;
    compute = compute;
    equals = equals;
    cached = false;
    has_value = false;
    refreshing = false;
    active = true;
    force_run = false;
  }

  abbrev pub add_node : Context V → Node V → Context V
  add_node c nb = record c { nodes = c.nodes ++ nb ∷ [] }

  -- `NewSource`: the new node stands at the end.
  unfoldable pub new_source : Context V → V → Context V
  new_source c initial = add_node c (new_node source initial (done initial) none)

  -- `NewSlot`, and `NewComputed` with a guard.
  unfoldable pub new_slot : Context V → V → Program V → Option (V → V → Bool) → Context V
  new_slot c blank compute equals = add_node c (new_node computed blank compute equals)

  abbrev pub modify : (Node V → Node V) → Context V → ℕ → Context V
  modify f c n = elim (node c n) [ none ↦ c | some nb ↦ put_node c n (f nb) ]

  abbrev pub add_dependent : ℕ → Node V → Node V
  add_dependent p nb = record nb { dependents = with_member p nb.dependents }

  abbrev pub add_dependency : ℕ → Node V → Node V
  add_dependency d nb = record nb { dependencies = with_member d nb.dependencies }

  -- `trackTo` with a parent that is not nil.
  unfoldable pub track_to : Context V → ℕ → ℕ → Context V
  track_to c d p = elim (node c d) [
    | none ↦ c
    | some nb ↦
        if p == d || member p nb.dependents
        then c
        else modify (add_dependency d) (put_node c d (add_dependent p nb)) p
  ]

  -- `trackTo`; no parent is nil.
  abbrev pub track : Context V → ℕ → Option ℕ → Context V
  track c d none = c
  track c d (some p) = track_to c d p

  -- The loop of `detachUpstream`.
  pub drop_dependent : Context V → ℕ → List ℕ → Context V
  drop_dependent c n [] = c
  drop_dependent c n (d ∷ ds) =
      drop_dependent (modify (λ nb. record nb { dependents = without n nb.dependents }) c d) n ds

  unfoldable pub detach_upstream : Context V → ℕ → List ℕ → Context V
  unfolding drop_dependent
  detach_upstream c n dependencies =
      modify (λ nb. record nb { dependencies = [] }) (drop_dependent c n dependencies) n

  -- `markClean`.
  abbrev pub clean : Node V → Node V
  clean nb = record nb { dirty = false; force_recompute = false; cached = true }

  unfoldable pub mark_clean : Context V → ℕ → Context V
  mark_clean c n = elim (node c n) [
    | none ↦ c
    | some nb ↦ record (put_node c n (clean nb)) {
      cached_count = if not nb.cached then c.cached_count + 1 else c.cached_count;
    }
  ]

  abbrev pub unchanged : Node V → V → Bool
  unchanged nb v = elim nb.equals [ none ↦ false | some same ↦ nb.has_value && same nb.value v ]

  abbrev pub forced : Option (Context V) → Outcome (Context V) Bool
  forced none = starved
  forced (some c) = finished c true

  -- `recomputeNow`, once the closure has returned `v`; `nb` is the node then.
  pub store_value : Context V → ℕ → Node V → V → Outcome (Context V) Bool
  unfolding mark_clean mark_dependents
  store_value c n nb v =
      let c' = modify (λ x. record x { value = v; has_value = true }) (mark_clean c n) n in
      if unchanged nb v
      then finished (mark_clean c n) false
      else if not nb.has_value
      then finished c' false
      else forced (mark_dependents (mark_bound c' (lazily_marked nb.dependents)) c' nb false)

  pub store_at : Context V → ℕ → V → Outcome (Context V) Bool
  unfolding store_value
  store_at c n v = elim (node c n) [ none ↦ finished c false | some nb ↦ store_value c n nb v ]

  -- A read of the value field.
  abbrev pub value_of : Context V → ℕ → Outcome (Context V) V
  value_of c n = elim (node c n) [ none ↦ panicked c | some nb ↦ finished c nb.value ]

  -- `getVia`; the node is the one before the read is tracked.
  pub get_found : Refresh V → Context V → ℕ → Option ℕ → Option (Node V) → Outcome (Context V) V
  unfolding track_to
  get_found refresh c n parent none = panicked c
  get_found refresh c n parent (some nb) =
      let c' = track c n parent in
      if nb.disposed then panicked c else elim nb.kind [
        | source ↦ finished c' nb.value
        | effect ↦ finished c' nb.value
        | computed ↦
            if nb.cached then finished c' nb.value else refresh c' n >>= λ c'' _. value_of c'' n
      ]

  unfoldable pub get_via : Refresh V → Context V → ℕ → Option ℕ → Outcome (Context V) V
  unfolding get_found
  get_via refresh c n parent = get_found refresh c n parent (node c n)

  -- The closure of the node `p`, run with its `Compute` view.
  pub run_program : Refresh V → Context V → ℕ → Program V → Outcome (Context V) V
  unfolding get_via
  run_program refresh c p (done v) = finished c v
  run_program refresh c p (read d k) =
      get_via refresh c d (some p) >>= λ c' v. run_program refresh c' p (k v)

  -- The loop of `refresh` over the dependencies.
  pub refresh_all : Refresh V → Context V → List ℕ → Outcome (Context V) Bool
  refresh_all refresh c [] = finished c false
  refresh_all refresh c (d ∷ ds) =
      refresh c d >>= λ c' one. refresh_all refresh c' ds >>= λ c'' more. finished c'' (one || more)

  pub recompute_found : Refresh V → Context V → ℕ → Option (Node V) → Outcome (Context V) Bool
  unfolding detach_upstream run_program store_at
  recompute_found refresh c n none = finished c false
  recompute_found refresh c n (some nb) =
      run_program refresh (detach_upstream c n nb.dependencies) n nb.compute >>= λ c' v.
      store_at c' n v

  unfoldable pub recompute_now : Refresh V → Context V → ℕ → Outcome (Context V) Bool
  unfolding recompute_found
  recompute_now refresh c n = recompute_found refresh c n (node c n)

  abbrev pub refreshing_set : Bool → Context V → ℕ → Context V
  refreshing_set b = modify (λ nb. record nb { refreshing = b })

  -- After the loop over the dependencies.
  pub checked : Refresh V → Context V → ℕ → Bool → Outcome (Context V) Bool
  unfolding mark_clean recompute_now
  checked refresh c n changed =
      if not changed then finished (mark_clean c n) false else recompute_now refresh c n

  -- `Computed.refresh` of a node that is neither disposed, nor current, nor being refreshed.
  pub refresh_stale :
      (List ℕ → List ℕ) → Refresh V → Context V → ℕ → Node V → Outcome (Context V) Bool
  unfolding refresh_all recompute_now checked
  refresh_stale order refresh c n nb =
      if nb.has_value && not nb.force_recompute
      then refresh_all refresh (refreshing_set true c n) (order nb.dependencies)
        >>= (λ c' changed. checked refresh (refreshing_set false c' n) n changed)
      else recompute_now refresh c n

  pub refresh_found :
      (List ℕ → List ℕ) → Refresh V → Context V → ℕ → Option (Node V) → Outcome (Context V) Bool
  unfolding refresh_stale
  refresh_found order refresh c n none = finished c false
  refresh_found order refresh c n (some nb) = elim nb.kind [
    | source ↦ finished c false
    | effect ↦ finished c false
    | computed ↦
        if nb.disposed || nb.cached
        then finished c false
        else if nb.refreshing
        then finished c false
        else refresh_stale order refresh c n nb
  ]

  -- `refresh`.
  pub refresh : (List ℕ → List ℕ) → ℕ → Context V → ℕ → Outcome (Context V) Bool
  unfolding refresh_found
  refresh order zero c n = starved
  refresh order (suc fuel) c n = refresh_found order (refresh order fuel) c n (node c n)

  -- `Get` on the context, an untracked read.
  unfoldable pub get : (List ℕ → List ℕ) → ℕ → Context V → ℕ → Outcome (Context V) V
  unfolding refresh get_via
  get order fuel c n = get_via (refresh order fuel) c n none
