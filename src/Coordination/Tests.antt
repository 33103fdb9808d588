-- ===== src/Coordination/Tests.antt =====
-- Leases, locks, semaphores and barriers at concrete calls.
use lazily_go.Base.{
  ◌∷◌, ◌≡◌, List, [], arith, refl, some, true, ℕ, ℕ_comparable, bool_comparable, option_comparable,
}
use lazily_go.Coordination.{renew, LeaseCore, acquire, is_held, new_lease_core}
use lazily_go.Coordination.Lease.{
  Fenced, LeaseOp, acquire_exclusive, lease_run, renews, releases, acquires, grants, grants-Fenced,
  ticks,
}
use lazily_go.Coordination.Permits.{
  answers, new_semaphore_cell, pool_answers, pool_left, IsSemaphore, permit_run,
  permit_run-IsSemaphore, returns, takes,
}
use lazily_go.Base.Word.{add_u64}

abbrev calls : List (LeaseOp ℕ)
calls = acquires 1 0 10 ∷ acquires 2 5 10 ∷ acquires 1 6 10 ∷ ticks 16 ∷ acquires 2 16 10 ∷ []

grants-Fenced_example : Fenced (grants (new_lease_core {P = ℕ}) calls)
grants-Fenced_example = grants-Fenced new_lease_core calls (unfold new_lease_core in omega arith)

abbrev alice : ℕ
alice = 1

abbrev bob : ℕ
bob = 2

abbrev held : LeaseCore ℕ
held = record { holder = some 1; expiry = 10; fence = 4 }

-- Calls of another peer before the deadline.
abbrev intruding : List (LeaseOp ℕ)
intruding = acquires bob 3 10 ∷ renews bob 4 10 ∷ releases bob ∷ ticks 5 ∷ []

acquire_exclusive_example :
    (grants held intruding ≡ [])
    × (lease_run held intruding ≡ held)
    × (is_held (lease_run held intruding) 5 ≡ true)
    × (acquire (lease_run held intruding) alice 5 10
        ≡ (record held { expiry = add_u64 5 10 }, some 4))
    × (renew (lease_run held intruding) alice 5 10 ≡ (record held { expiry = add_u64 5 10 }, true))
acquire_exclusive_example =
    acquire_exclusive held alice intruding 5 10 refl
      (
        (λ e. absurd (omega arith)),
        omega arith,
        (
          (λ e. absurd (omega arith)),
          omega arith,
          ((λ e. absurd (omega arith)), (omega arith, tt)),
        ),
      )
      (omega arith)

permit_run-IsSemaphore_example :
    let ops = takes ∷ takes ∷ takes ∷ returns ∷ [] in
    (answers (new_semaphore_cell 2) ops ≡ pool_answers 2 2 ops)
    × ((permit_run (new_semaphore_cell 2) ops).available.value ≡ pool_left 2 2 ops)
    × IsSemaphore 2 (permit_run (new_semaphore_cell 2) ops)
permit_run-IsSemaphore_example =
    permit_run-IsSemaphore 2 (takes ∷ takes ∷ takes ∷ returns ∷ []) (omega arith)
