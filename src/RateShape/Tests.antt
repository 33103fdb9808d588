-- ===== src/RateShape/Tests.antt =====
-- Debounce, throttle and sample at concrete calls.
use lazily_go.Base.{
  ◌++◌, if◌then◌else◌, ◌∷◌, ◌≡◌, List, [], arith, false, none, some, ℕ, ℕ_comparable,
  bool_comparable, option_comparable,
}
use lazily_go.RateShape.{DebounceCore, SampleCore, leading, new_throttle_core, sample_time}
use lazily_go.RateShape.Emits.{
  SpacedFrom, debounce_burst, debounce_inputs, debounced, passed, reaches, throttle_spaced,
}
use lazily_go.Base.Word.{add_u64}

abbrev quiet_five : DebounceCore ℕ
quiet_five = record { quiet = 5; pending = none; fire_at = 0; armed = false }

debounce_burst_example :
    debounced (debounce_inputs quiet_five (((1, 70) ∷ []) ++ (3, 71) ∷ [])) (6 ∷ 8 ∷ 9 ∷ [])
    ≡ (if reaches (add_u64 3 5) (6 ∷ 8 ∷ 9 ∷ []) then 71 ∷ [] else [])
debounce_burst_example = debounce_burst quiet_five ((1, 70) ∷ []) 3 71 (6 ∷ 8 ∷ 9 ∷ [])

abbrev inputs : List (ℕ × ℕ)
inputs = (1, 70) ∷ (4, 71) ∷ (12, 72) ∷ []

throttle_spaced_example : SpacedFrom 0 10 (passed (new_throttle_core leading 10) inputs)
throttle_spaced_example = throttle_spaced 10 inputs (omega arith, (omega arith, (omega arith, tt)))

abbrev sampler : SampleCore ℕ
sampler = record { mode = sample_time 10; counter = 0; next = 10; held = some 7 }
