-- ===== src/Window/Tests.antt =====
-- merge.go and windowing.go: runs, and the theorems on concrete elements.
use lazily_go.Base.{
  ◌<◌, ◌∷◌, ◌≡◌, ◌≤◌, ◌⊎◌, Option, [], arith, none, refl, some, ℕ, ℕ_comparable, bool_comparable,
  option_comparable,
}
use lazily_go.Cell.{new_source, set_value}
use lazily_go.Window.{
  SessionCore, SlidingCore, TumblingCountWindow, TumblingTimeCore, at_least_one, count_window_push,
  max_policy, new_session, new_sliding, new_tumbling_count, session_flush, session_push,
  sliding_push, sum_policy, trim, tumbling_time_tick, uint64,
}
use lazily_go.Window.Emits.{chunk_folds, tumbling_count_run, tumbling_count_run-chunks}
use lazily_go.Window.Boundary.{Boundary, tumbling_time_tick-total}

counted :
    tumbling_count_run (new_tumbling_count 2 (sum_policy uint64)) (1 ∷ 2 ∷ 3 ∷ 4 ∷ 5 ∷ [])
    ≡ 3 ∷ 7 ∷ []
unfolding tumbling_count_run new_tumbling_count sum_policy
counted = refl

abbrev two_last : SlidingCore ℕ
two_last = (sliding_push (sliding_push (new_sliding 2 1 (sum_policy uint64)) 5).0 6).0

slid : (sliding_push two_last 7).1 ≡ some 13
unfolding sliding_push new_sliding sum_policy trim
slid = refl

-- A pause longer than the gap closes the session.
abbrev session : SessionCore ℕ
session = (session_push (session_push (new_session 3 (max_policy uint64)) 10 4).0 12 9).0

paused : (session_push session 16 1).1 ≡ some 9
unfolding session_push new_session max_policy
paused = refl

flushed : (session_flush session 15).1 ≡ none
unfolding session_flush session_push new_session max_policy
flushed = refl

abbrev window : TumblingCountWindow ℕ
window = record { core = new_tumbling_count 1 (max_policy uint64); output = new_source none }

projects : (count_window_push window 8).0.output ≡ record { value = some 8; cascades = 1 }
unfolding count_window_push new_tumbling_count new_source set_value max_policy
projects = refl

tumbling_count_run-chunks_example :
    tumbling_count_run (new_tumbling_count 2 (sum_policy uint64)) (1 ∷ 2 ∷ 3 ∷ [])
    ≡ chunk_folds (sum_policy uint64) (at_least_one 2) [] (1 ∷ 2 ∷ 3 ∷ [])
tumbling_count_run-chunks_example =
    tumbling_count_run-chunks 2 (sum_policy uint64) (1 ∷ 2 ∷ 3 ∷ []) (omega arith)

-- A time window of period 5 that holds 7 and is due at 10.
abbrev timed : TumblingTimeCore ℕ
timed = record { period = 5; next_at = 10; policy = (sum_policy uint64); acc = some 7 }

tumbling_time_tick-total_example :
    (c' : TumblingTimeCore ℕ) × (out : Option ℕ) × (tumbling_time_tick 24 timed 22 ≡ some (c', out))
    × Boundary 5 10 c'.next_at
    × (22 < c'.next_at)
    × (((22 < 10) × (c' ≡ timed) × (out ≡ none))
        ⊎ ((10 ≤ 22) × (c'.acc ≡ none) × (out ≡ some 7) × (c'.next_at ≤ 27)))
tumbling_time_tick-total_example = tumbling_time_tick-total timed 22 (omega arith) (omega arith)
