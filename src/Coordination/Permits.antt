-- ===== src/Coordination/Permits.antt =====
-- coordination.go, `SemaphoreCore` and `SemaphoreCell`.
use lazily_go.Base.{
  ◌+◌, ◌-◌, ◌<◌, if◌then◌else◌, ◌∙◌, ◌∷◌, ◌≡◌, ◌≤◌, Bool, List, [], arith, false, ltb, min, refl,
  suc, true, zero, ℕ, ℕ_comparable, bool_comparable, option_comparable,
}
use lazily_go.Cell.{SourceCell, new_source, set_value}
use lazily_go.Base.Word.{add_u64, sub_u64, word_mod}

-- `SemaphoreCore`.
pub record SemaphoreCore : Type 0 where
  pub capacity : ℕ
  pub acquired : ℕ

-- `SemaphoreCell`.
pub record SemaphoreCell : Type 0 where
  pub core : SemaphoreCore
  pub available : SourceCell ℕ

unfoldable pub available : SemaphoreCore → ℕ
available c = sub_u64 c.capacity c.acquired

-- `SemaphoreCore.Acquire`.
unfoldable pub take_permit : SemaphoreCore → SemaphoreCore × Bool
take_permit c =
    if ltb c.acquired c.capacity
    then (record c { acquired = add_u64 c.acquired 1 }, true)
    else (c, false)

-- `SemaphoreCore.Release`.
unfoldable pub return_permit : SemaphoreCore → SemaphoreCore
return_permit c = if ltb 0 c.acquired then record c { acquired = sub_u64 c.acquired 1 } else c

-- `NewSemaphoreCore`.
abbrev pub new_semaphore_core : ℕ → SemaphoreCore
new_semaphore_core capacity = record { capacity = capacity; acquired = 0 }

-- `NewSemaphoreCell`.
unfoldable pub new_semaphore_cell : ℕ → SemaphoreCell
unfolding new_source
new_semaphore_cell capacity = record {
  core = new_semaphore_core capacity;
  available = new_source capacity;
}

-- `SemaphoreCell.refresh`.
semaphore_refresh : SemaphoreCell → SemaphoreCell
unfolding available set_value
semaphore_refresh c = record c { available = set_value c.available (available c.core) }

unfoldable pub cell_take_permit : SemaphoreCell → SemaphoreCell × Bool
unfolding take_permit semaphore_refresh
cell_take_permit c =
    let (core, taken) = take_permit c.core in (semaphore_refresh (record c { core = core }), taken)

unfoldable pub cell_return_permit : SemaphoreCell → SemaphoreCell
unfolding return_permit semaphore_refresh
cell_return_permit c = semaphore_refresh (record c { core = return_permit c.core })

-- A permit pool is in range.
abbrev pub IsPool : SemaphoreCore → Type 0
IsPool c = (c.acquired ≤ c.capacity) × (c.capacity < word_mod)

-- The calls on a semaphore.
pub data PermitOp : Type 0 where
  takes returns : PermitOp

pub permit_step : SemaphoreCell → PermitOp → SemaphoreCell
permit_step c takes = (cell_take_permit c).0
permit_step c returns = cell_return_permit c

pub permit_run : SemaphoreCell → List PermitOp → SemaphoreCell
permit_run c [] = c
permit_run c (op ∷ ops) = permit_run (permit_step c op) ops

-- The pool is in range, and the reader shows the free permits.
abbrev pub IsSemaphore : ℕ → SemaphoreCell → Type 0
IsSemaphore capacity c =
    IsPool c.core × (c.core.capacity ≡ capacity) × (c.available.value + c.core.acquired ≡ capacity)

permit_step-IsSemaphore :
    (n : ℕ) (c : SemaphoreCell) (op : PermitOp) → IsSemaphore n c → IsSemaphore n (permit_step c op)
unfolding permit_step cell_take_permit cell_return_permit
permit_step-IsSemaphore n c takes v = ground arith
permit_step-IsSemaphore n c returns v = ground arith

-- What the calls of `Acquire` return.
pub answers : SemaphoreCell → List PermitOp → List Bool
answers c [] = []
answers c (takes ∷ ops) = (cell_take_permit c).1 ∷ answers (cell_take_permit c).0 ops
answers c (returns ∷ ops) = answers (cell_return_permit c) ops

-- A counter of free permits, up to a capacity: what it answers, and what it is left with.
pub pool_answers : ℕ → ℕ → List PermitOp → List Bool
pool_answers n free [] = []
pool_answers n zero (takes ∷ ops) = false ∷ pool_answers n zero ops
pool_answers n (suc free) (takes ∷ ops) = true ∷ pool_answers n free ops
pool_answers n free (returns ∷ ops) = pool_answers n (min n (free + 1)) ops

pub pool_left : ℕ → ℕ → List PermitOp → ℕ
pool_left n free [] = free
pool_left n free (takes ∷ ops) = pool_left n (free - 1) ops
pool_left n free (returns ∷ ops) = pool_left n (min n (free + 1)) ops

-- One call on the cell and on the counter.
taken-free :
    (n free : ℕ) (c : SemaphoreCell)
    → IsSemaphore n c
    → c.available.value ≡ free
    → ((cell_take_permit c).1 ≡ ltb 0 free) × ((cell_take_permit c).0.available.value ≡ free - 1)
unfolding cell_take_permit
taken-free n free c v e = ground arith

returned-free :
    (n free : ℕ) (c : SemaphoreCell)
    → IsSemaphore n c
    → c.available.value ≡ free
    → (cell_return_permit c).available.value ≡ min n (free + 1)
unfolding cell_return_permit
returned-free n free c v e = ground arith

run-pool :
    (n free : ℕ) (c : SemaphoreCell) (ops : List PermitOp)
    → IsSemaphore n c
    → c.available.value ≡ free
    → (answers c ops ≡ pool_answers n free ops)
      × ((permit_run c ops).available.value ≡ pool_left n free ops)
      × IsSemaphore n (permit_run c ops)
unfolding permit_run permit_step answers pool_answers pool_left
run-pool n free c [] v e = (refl, e, v)
run-pool n zero c (takes ∷ ops) v e =
    let (said, left) = taken-free n zero c v e in
    let no : (cell_take_permit c).1 ≡ false = said ∙ ground arith in
    let (rest, out, ok) =
      run-pool n zero (cell_take_permit c).0 ops (permit_step-IsSemaphore n c takes v)
        (left ∙ omega arith) in
    let stays : 0 - 1 ≡ 0 = omega arith in (rw (no, rest) refl, rw stays out, ok)
run-pool n (suc free) c (takes ∷ ops) v e =
    let (said, left) = taken-free n (suc free) c v e in
    let yes : (cell_take_permit c).1 ≡ true = said ∙ ground arith in
    let (rest, out, ok) =
      run-pool n free (cell_take_permit c).0 ops (permit_step-IsSemaphore n c takes v)
        (left ∙ omega arith) in
    let fewer : suc free - 1 ≡ free = omega arith in (rw (yes, rest) refl, rw fewer out, ok)
run-pool n free c (returns ∷ ops) v e =
    run-pool n (min n (free + 1)) (cell_return_permit c) ops (permit_step-IsSemaphore n c returns v)
      (returned-free n free c v e)

-- Over any acquires and releases, a new semaphore of any `uint64` capacity is a counter of free permits
-- that starts full: an acquire is granted exactly if a permit is free and takes one, a release gives
-- one back, up to the capacity, and the reader shows the free permits. The permits taken and those
-- that the reader shows always make up the capacity.
pub permit_run-IsSemaphore :
    (n : ℕ) (ops : List PermitOp)
    → n < word_mod
    → (answers (new_semaphore_cell n) ops ≡ pool_answers n n ops)
      × ((permit_run (new_semaphore_cell n) ops).available.value ≡ pool_left n n ops)
      × IsSemaphore n (permit_run (new_semaphore_cell n) ops)
permit_run-IsSemaphore n ops h =
    run-pool n n (new_semaphore_cell n) ops
      (unfold new_semaphore_cell in ((omega arith, h), refl, omega arith))
      (unfold new_semaphore_cell in refl)
