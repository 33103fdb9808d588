-- ===== src/Resilience/Tests.antt =====
-- The breaker, the retry policy, the bulkhead and the timeout at concrete calls.
use lazily_go.Base.{
  ◌*◌, ◌++◌, ◌^◌, ◌↔◌, ◌∷◌, ◌≡◌, ◌≤◌, [], arith, false, inl, min, refl, true, ℕ_comparable,
  bool_comparable, option_comparable,
}
use lazily_go.Resilience.{
  failures, BulkheadCell, RetryPolicyCore, TimeoutCore, allow, closed, delay,
  new_circuit_breaker_core, open_state, record_outcome,
}
use lazily_go.Resilience.Breaker.{
  IsBreaker, allows, breaker_run, breaker_run-new-IsBreaker, history, last_of, records,
}
use lazily_go.Resilience.Retry.{delay-saturates}
use lazily_go.Resilience.Cells.{RetryPolicyCell}

breaker_run-new-IsBreaker_example :
    let b = new_circuit_breaker_core 3 2 10 in
    let c = breaker_run b (allows 1 ∷ records false 2 ∷ []) in
    let h = history b [] (allows 1 ∷ records false 2 ∷ []) in
    IsBreaker 3 2 10 h c
    × (c.state ≡ closed
        → (allow c 4 ≡ (c, true))
          × ((record_outcome c false 4).state ≡ open_state
              ↔ 2 ≤ failures (last_of 3 (h ++ false ∷ []))))
breaker_run-new-IsBreaker_example =
    breaker_run-new-IsBreaker 3 2 10 (allows 1 ∷ records false 2 ∷ []) false 4

abbrev policy : RetryPolicyCore
policy = record { base = 3; cap_delay = 40; attempt = 0 }

delay-saturates_example : delay policy 3 ≡ min 40 (3 * 2 ^ 3)
delay-saturates_example = delay-saturates policy 3 (omega arith) (inl (omega arith))

delay_tests : (delay policy 3 ≡ 24) × (delay policy 4 ≡ 40) × (delay policy 63 ≡ 40)
unfolding delay
delay_tests = (refl, refl, refl)

abbrev bulkhead : BulkheadCell
bulkhead = record {
  core = record { capacity = 2; in_use = 1 };
  in_use = record { value = 1; cascades = 1 };
}

abbrev idle : TimeoutCore
idle = record { deadline = 0; armed = false; timed_out = false }

abbrev retries : RetryPolicyCell
retries = record {
  core = record policy { attempt = 5 };
  delay = record { value = 9; cascades = 1 };
}
