-- ===== src/Kernel/Pull/Tests.antt =====
-- core.go, the pull half: runs of `Get` on one diamond, before and after a write of its source.
use lazily_go.Base.{
  ◌*◌, ◌+◌, ◌++◌, ◌/◌, ◌==◌, ◌∷◌, ◌≡◌, List, Option, [], false, none, refl, some, ℕ, ℕ_comparable,
  bool_comparable, option_comparable,
}
use lazily_go.Kernel.{Context, done, invalidate, read, mark_entry}
use lazily_go.Kernel.Pull.{
  Outcome, finished, get, modify, new_slot, new_source, panicked, starved, ◌>>=◌,
}

abbrev empty_context : Context ℕ
empty_context = record {
  nodes = [];
  cached_count = 0;
  batch_depth = 0;
  batched_cells = [];
  pending_effects = [];
  scheduled_effects = [];
  flushing_effects = false;
  disposing = 0;
}

-- The source 0, the computed 1 over it, 2, which is guarded and reads 1, and 3, which reads 1 and 2.
abbrev diamond : Context ℕ
diamond =
    let a = new_source empty_context 1 in
    let b = new_slot a 0 (read 0 (λ v. done v)) (some (λ x y. x == y)) in
    let c = new_slot b 0 (read 1 (λ v. done (v / 10))) (some (λ x y. x == y)) in
    new_slot c 0 (read 1 (λ v. read 2 (λ w. done (v + 100 * w)))) (some (λ x y. x == y))

abbrev reversed : List ℕ → List ℕ
reversed [] = []
reversed (x ∷ xs) = reversed xs ++ x ∷ []

abbrev value_read : Outcome (Context ℕ) ℕ → Option ℕ
value_read (finished c v) = some v
value_read (panicked c) = none
value_read starved = none

abbrev as_outcome : Option (Context ℕ) → Outcome (Context ℕ) ℕ
as_outcome none = starved
as_outcome (some c) = finished c 0

-- `Get(3)`, a write of 2 to the source with its cascade, and `Get(3)` again.
abbrev read_after_write : (List ℕ → List ℕ) → Option ℕ
read_after_write order = value_read (
    get order 9 diamond 3 >>= (λ c _.
      as_outcome (invalidate 50 (modify (λ nb. record nb { value = 2 }) c 0) 0) >>= λ c' _.
      get order 9 c' 3))

first_read : value_read (get (λ ds. ds) 9 diamond 3) ≡ some 1
unfolding get new_source new_slot
first_read = refl

-- The nodes are refreshed in the order of their creation, and the read sees the write.
ascending_read : read_after_write reversed ≡ some 2
unfolding get new_source new_slot invalidate lazily_go.Kernel.mark_entry
ascending_read = refl

-- The guarded node is refreshed first: the read returns the value from before the write.
descending_read : read_after_write (λ ds. ds) ≡ some 1
unfolding get new_source new_slot invalidate lazily_go.Kernel.mark_entry
descending_read = refl

-- A missing node, an untracked read of the source, and too little fuel.
missing_read : value_read (get (λ ds. ds) 9 diamond 7) ≡ none
unfolding get new_source new_slot
missing_read = refl

source_read : value_read (get (λ ds. ds) 9 diamond 0) ≡ some 1
unfolding get new_source new_slot
source_read = refl

starved_read : value_read (get (λ ds. ds) 1 diamond 3) ≡ none
unfolding get new_source new_slot
starved_read = refl
