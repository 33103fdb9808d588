-- ===== src/Resilience/Cells.antt =====
-- resilience.go: `CircuitBreakerCell`, `RetryPolicyCell` and `TimeoutCell`, the cores with the
-- projection that their methods write.
use lazily_go.Base.{
  ◌+◌, ◌<◌, ◌↔◌, ◌∷◌, ◌≡◌, ◌≤◌, Bool, Comparable, List, [], arith, false, refl, suc, true, zero, ℕ,
  ℕ_comparable, bool_comparable, option_comparable,
}
use lazily_go.Cell.{SourceCell, new_source, set_value, value-set_value}
use lazily_go.Resilience.{
  delay, BreakerState, CircuitBreakerCore, RetryPolicyCore, TimeoutCore, allow, arm, closed,
  half_open, max_uint32, new_circuit_breaker_core, next_delay, open_state, record_outcome, reset,
  tick,
}

abbrev state_eq : BreakerState → BreakerState → Bool
state_eq closed closed = true
state_eq open_state open_state = true
state_eq half_open half_open = true
state_eq _ _ = false

pub state_eq_iff : (a b : BreakerState) → (state_eq a b ≡ true) ↔ (a ≡ b)
state_eq_iff a b = ground arith

instance abbrev pub breaker_state_comparable : Comparable BreakerState
breaker_state_comparable = record { eq = state_eq; eq_iff = state_eq_iff }

-- `CircuitBreakerCell`.
pub record CircuitBreakerCell : Type 0 where
  pub core : CircuitBreakerCore
  pub state : SourceCell BreakerState

unfoldable pub new_circuit_breaker_cell : ℕ → ℕ → ℕ → CircuitBreakerCell
unfolding new_circuit_breaker_core new_source
new_circuit_breaker_cell window failure_threshold reset_timeout = record {
  core = new_circuit_breaker_core window failure_threshold reset_timeout;
  state = new_source closed;
}

breaker_refresh : CircuitBreakerCell → CircuitBreakerCell
unfolding set_value
breaker_refresh c = record c { state = set_value c.state c.core.state }

-- `CircuitBreakerCell.Allow`.
unfoldable pub breaker_allow : CircuitBreakerCell → ℕ → CircuitBreakerCell × Bool
unfolding allow breaker_refresh
breaker_allow c now =
    let (core, allowed) = allow c.core now in (breaker_refresh (record c { core = core }), allowed)

-- `CircuitBreakerCell.Record`.
unfoldable pub breaker_record : CircuitBreakerCell → Bool → ℕ → CircuitBreakerCell
unfolding record_outcome breaker_refresh
breaker_record c success now =
    breaker_refresh (record c { core = record_outcome c.core success now })

-- `RetryPolicyCell`.
pub record RetryPolicyCell : Type 0 where
  pub core : RetryPolicyCore
  pub delay : SourceCell ℕ

-- `RetryPolicyCell.NextDelay`.
unfoldable pub retry_next_delay : RetryPolicyCell → RetryPolicyCell × ℕ
unfolding next_delay set_value
retry_next_delay r =
    let (core, d) = next_delay r.core in (record { core = core; delay = set_value r.delay d }, d)

-- `RetryPolicyCell.Reset`.
unfoldable pub retry_reset : RetryPolicyCell → RetryPolicyCell
unfolding reset set_value
retry_reset r = record { core = reset r.core; delay = set_value r.delay 0 }

-- `TimeoutCell`.
pub record TimeoutCell : Type 0 where
  pub core : TimeoutCore
  pub timed_out : SourceCell Bool

timeout_refresh : TimeoutCell → TimeoutCell
unfolding set_value
timeout_refresh t = record t { timed_out = set_value t.timed_out t.core.timed_out }

-- `TimeoutCell.Arm`.
unfoldable pub timeout_arm : TimeoutCell → ℕ → ℕ → TimeoutCell
unfolding arm timeout_refresh
timeout_arm t now timeout = timeout_refresh (record t { core = arm t.core now timeout })

-- `TimeoutCell.Tick`.
unfoldable pub timeout_tick : TimeoutCell → ℕ → TimeoutCell × Bool
unfolding tick timeout_refresh
timeout_tick t now =
    let (core, fires) = tick t.core now in (timeout_refresh (record t { core = core }), fires)

-- The calls on a retry policy, and the delays that they return.
pub delays : ℕ → RetryPolicyCell → List ℕ
delays zero r = []
delays (suc n) r = let (r', d) = retry_next_delay r in d ∷ delays n r'

-- The delays of consecutive attempts.
abbrev pub schedule : RetryPolicyCore → ℕ → ℕ → List ℕ
schedule r attempt zero = []
schedule r attempt (suc n) = delay r attempt ∷ schedule r (attempt + 1) n

core-retry_next_delay :
    (a : ℕ) (p : RetryPolicyCore) (r : RetryPolicyCell)
    → r.core ≡ record p { attempt = a }
    → a < max_uint32
    → ((retry_next_delay r).1 ≡ delay p a)
      × ((retry_next_delay r).0.core ≡ record p { attempt = a + 1 })
unfolding retry_next_delay next_delay delay
core-retry_next_delay a p r e b = rw e (refl, ground arith)

delays_from :
    (n a : ℕ) (p : RetryPolicyCore) (r : RetryPolicyCell)
    → r.core ≡ record p { attempt = a }
    → a + n ≤ max_uint32
    → delays n r ≡ schedule p a n
unfolding delays
delays_from zero a p r e b = refl
delays_from (suc n) a p r e b =
    let (same, next) = core-retry_next_delay a p r e (omega arith) in
    let rest = delays_from n (a + 1) p (retry_next_delay r).0 next (omega arith) in cc

-- After `Reset` a retry policy returns the delays of the attempts 0, 1, 2 and so on, whatever it did
-- before, and its reader shows 0 until the first of them. There are no more calls than `uint32` holds.
retry_reset-schedule :
    (n : ℕ) (r : RetryPolicyCell)
    → n ≤ max_uint32
    → (delays n (retry_reset r) ≡ schedule r.core 0 n) × ((retry_reset r).delay.value ≡ 0)
unfolding retry_reset
retry_reset-schedule n r b =
    (delays_from n 0 r.core (retry_reset r) refl (omega arith), value-set_value r.delay 0)
