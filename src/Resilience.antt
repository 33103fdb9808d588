-- ===== src/Resilience.antt =====
-- resilience.go: circuit breaker, retry backoff, bulkhead and timeout. Times and counters are `uint64`s
-- (`attempt` is a `uint32`); the window and the threshold are `int`s that the constructor clamps to at
-- least 1, and are taken not to be negative before. The cells over the breaker, the retry policy and
-- the timeout stand in Resilience/Cells.
pub mod Breaker
pub mod Retry
pub mod Pools
pub mod Cells
mod Tests
use lazily_go.Base.{
  ◌%◌, ◌&&◌, ◌*◌, ◌+◌, ◌++◌, ◌/◌, ◌==◌, ◌^◌, if◌then◌else◌, ◌∷◌, Bool, List, [], false, leb, length,
  ltb, not, suc, true, ℕ, ℕ_comparable, bool_comparable, option_comparable,
}
use lazily_go.Cell.{SourceCell, set_value}
use lazily_go.Base.Word.{add_u64, sub_u64, word_mod}

pub data BreakerState : Type 0 where
  closed open_state half_open : BreakerState

-- `CircuitBreakerCore`. An outcome is true for a success.
pub record CircuitBreakerCore : Type 0 where
  pub window : ℕ
  pub failure_threshold : ℕ
  pub reset_timeout : ℕ
  pub state : BreakerState
  pub outcomes : List Bool
  pub open_until : ℕ

abbrev clamp_one : ℕ → ℕ
clamp_one n = if ltb n 1 then 1 else n

unfoldable pub new_circuit_breaker_core : ℕ → ℕ → ℕ → CircuitBreakerCore
new_circuit_breaker_core window failure_threshold reset_timeout = record {
  window = clamp_one window;
  failure_threshold = clamp_one failure_threshold;
  reset_timeout = reset_timeout;
  state = closed;
  outcomes = [];
  open_until = 0;
}

-- `failures`.
abbrev pub failures : List Bool → ℕ
failures [] = 0
failures (s ∷ rest) = if not s then suc (failures rest) else failures rest

-- The `switch` of `Allow`.
pub allow_in : BreakerState → CircuitBreakerCore → ℕ → CircuitBreakerCore × Bool
allow_in closed c now = (c, true)
allow_in open_state c now =
    if leb c.open_until now then (record c { state = half_open }, true) else (c, false)
allow_in half_open c now = (c, true)

unfoldable pub allow : CircuitBreakerCore → ℕ → CircuitBreakerCore × Bool
unfolding allow_in
allow c now = allow_in c.state c now

-- `for len(c.outcomes) > c.window { c.outcomes = c.outcomes[1:] }`.
pub trim : ℕ → List Bool → List Bool
trim window [] = []
trim window (s ∷ rest) = if ltb window (length (s ∷ rest)) then trim window rest else s ∷ rest

-- The state after a call in the closed state.
pub trip : CircuitBreakerCore → ℕ → CircuitBreakerCore
trip c now =
    if leb c.failure_threshold (failures c.outcomes)
    then record c { state = open_state; open_until = add_u64 now c.reset_timeout }
    else c

-- The `switch` of `Record`.
pub record_in : BreakerState → CircuitBreakerCore → Bool → ℕ → CircuitBreakerCore
unfolding trip
record_in half_open c success now =
    if success
    then record c { state = closed; outcomes = [] }
    else record c { state = open_state; open_until = add_u64 now c.reset_timeout }
record_in closed c success now =
    trip (record c { outcomes = trim c.window (c.outcomes ++ success ∷ []) }) now
record_in open_state c success now = c

-- `Record`.
unfoldable pub record_outcome : CircuitBreakerCore → Bool → ℕ → CircuitBreakerCore
unfolding record_in
record_outcome c success now = record_in c.state c success now

-- `RetryPolicyCore`.
pub record RetryPolicyCore : Type 0 where
  pub base : ℕ
  pub cap_delay : ℕ
  pub attempt : ℕ

unfoldable pub delay : RetryPolicyCore → ℕ → ℕ
delay r attempt =
    if leb 64 attempt
    then r.cap_delay
    else let shifted = (r.base * 2 ^ attempt) % word_mod in
      if not (shifted / 2 ^ attempt == r.base)
      then r.cap_delay
      else if ltb shifted r.cap_delay
      then shifted
      else r.cap_delay

abbrev pub max_uint32 : ℕ
max_uint32 = 4294967295

unfoldable pub next_delay : RetryPolicyCore → RetryPolicyCore × ℕ
unfolding delay
next_delay r = (
  (if not (r.attempt == max_uint32) then record r { attempt = r.attempt + 1 } else r),
  delay r r.attempt,
)

unfoldable pub reset : RetryPolicyCore → RetryPolicyCore
reset r = record r { attempt = 0 }

-- `BulkheadCore`.
pub record BulkheadCore : Type 0 where
  pub capacity : ℕ
  pub in_use : ℕ

unfoldable pub acquire : BulkheadCore → BulkheadCore × Bool
acquire b =
    if ltb b.in_use b.capacity then (record b { in_use = add_u64 b.in_use 1 }, true) else (b, false)

unfoldable pub release : BulkheadCore → BulkheadCore
release b = if ltb 0 b.in_use then record b { in_use = sub_u64 b.in_use 1 } else b

-- `BulkheadCell`.
pub record BulkheadCell : Type 0 where
  pub core : BulkheadCore
  pub in_use : SourceCell ℕ

unfoldable pub cell_acquire : BulkheadCell → BulkheadCell × Bool
unfolding acquire set_value
cell_acquire b =
    let (core, taken) = acquire b.core in
    (record { core = core; in_use = set_value b.in_use core.in_use }, taken)

unfoldable pub cell_release : BulkheadCell → BulkheadCell
unfolding release set_value
cell_release b =
    let core = release b.core in record { core = core; in_use = set_value b.in_use core.in_use }

-- `TimeoutCore`.
pub record TimeoutCore : Type 0 where
  pub deadline : ℕ
  pub armed : Bool
  pub timed_out : Bool

unfoldable pub arm : TimeoutCore → ℕ → ℕ → TimeoutCore
arm t now timeout = record { deadline = add_u64 now timeout; armed = true; timed_out = false }

-- `TimeoutCore.Tick`.
unfoldable pub tick : TimeoutCore → ℕ → TimeoutCore × Bool
tick t now =
    if t.armed && (not t.timed_out && leb t.deadline now)
    then (record t { timed_out = true }, true)
    else (t, false)
