-- ===== src/Resilience/Pools.antt =====
-- resilience.go, `BulkheadCell` and `TimeoutCore`.
use lazily_go.Base.{
  ◌<◌, if◌then◌else◌, ◌||◌, ◌∷◌, ◌≡◌, ◌≤◌, Bool, List, [], arith, false, leb, refl, suc, true, ℕ,
}
use lazily_go.Resilience.{BulkheadCell, TimeoutCore, arm, cell_acquire, cell_release, tick}
use lazily_go.Base.Word.{add_u64, word_mod}

-- The calls on a bulkhead.
pub data BulkheadOp : Type 0 where
  enters leaves : BulkheadOp

pub bulkhead_step : BulkheadCell → BulkheadOp → BulkheadCell
bulkhead_step b enters = (cell_acquire b).0
bulkhead_step b leaves = cell_release b

pub bulkhead_run : BulkheadCell → List BulkheadOp → BulkheadCell
bulkhead_run b [] = b
bulkhead_run b (op ∷ ops) = bulkhead_run (bulkhead_step b op) ops

-- No more calls are inside than the capacity, which stays as it was, and the reader shows how many.
abbrev pub IsBulkhead : ℕ → BulkheadCell → Type 0
IsBulkhead n b =
    (b.core.in_use ≤ n) × (b.core.capacity ≡ n) × (n < word_mod) × (b.in_use.value ≡ b.core.in_use)

bulkhead_step-IsBulkhead :
    (n : ℕ) (b : BulkheadCell) (op : BulkheadOp)
    → IsBulkhead n b
    → IsBulkhead n (bulkhead_step b op)
unfolding bulkhead_step cell_acquire cell_release
bulkhead_step-IsBulkhead n b enters v = ground arith
bulkhead_step-IsBulkhead n b leaves v = ground arith

-- Whatever the sequence of acquires and releases, a bulkhead admits no more calls than its
-- capacity at a time, and its reader shows how many are inside.
bulkhead_run-IsBulkhead :
    (n : ℕ) (b : BulkheadCell) (ops : List BulkheadOp)
    → IsBulkhead n b
    → IsBulkhead n (bulkhead_run b ops)
unfolding bulkhead_run
bulkhead_run-IsBulkhead n b [] v = v
bulkhead_run-IsBulkhead n b (op ∷ ops) v =
    bulkhead_run-IsBulkhead n (bulkhead_step b op) ops (bulkhead_step-IsBulkhead n b op v)

-- How often a timeout fires while its clock is read at the given times.
pub fired : TimeoutCore → List ℕ → ℕ
fired t [] = 0
fired t (now ∷ times) =
    let (t', fires) = tick t now in let rest = fired t' times in if fires then suc rest else rest

-- Some time in the list has reached the deadline.
abbrev pub reaches : ℕ → List ℕ → Bool
reaches deadline [] = false
reaches deadline (now ∷ times) = leb deadline now || reaches deadline times

fired_off : (t : TimeoutCore) (times : List ℕ) → t.timed_out ≡ true → fired t times ≡ 0
unfolding fired tick
fired_off t [] off = refl
fired_off t (now ∷ times) off = ground (arith, fired_off t times off)

fired_armed :
    (t : TimeoutCore) (times : List ℕ)
    → t.armed ≡ true
    → t.timed_out ≡ false
    → fired t times ≡ (if reaches t.deadline times then 1 else 0)
unfolding fired tick
fired_armed t [] a o = refl
fired_armed t (now ∷ times) a o =
    ground (arith, fired_armed t times a o, fired_off (record t { timed_out = true }) times refl)

-- After `Arm` a timeout fires exactly once over any readings of the clock if one of them has
-- reached the deadline, and not at all otherwise.
arm_fires_once :
    (t : TimeoutCore) (now timeout : ℕ) (times : List ℕ)
    → fired (arm t now timeout) times ≡ (if reaches (add_u64 now timeout) times then 1 else 0)
unfolding arm
arm_fires_once t now timeout times = fired_armed (arm t now timeout) times refl refl
