-- ===== src/Presence/Tests.antt =====
-- presence.go, the ephemeral plane: runs on concrete clocks.
use lazily_go.Base.{
  ◌∷◌, ◌≡◌, List, [], arith, none, refl, some, ℕ, ℕ_comparable, bool_comparable, option_comparable,
}
use lazily_go.Base.Assoc
use lazily_go.Presence.{live, map_get, new_map_core, present_at}
use lazily_go.Presence.Lapses.{MapOp, evicts, map_run, map_run-sees, remembered, sets, ticks}

-- Peers 1 and 2 beat with a time to live of 10; peer 1 is evicted once and beats again.
abbrev beats : List (MapOp ℕ ℕ)
beats = sets 1 100 0 10 ∷ sets 2 200 3 10 ∷ evicts 1 ∷ ticks 5 ∷ sets 1 101 6 10 ∷ ticks 9 ∷ []

seen_one : live 14 (remembered 1 none beats) ≡ some 101
seen_one = refl

seen_two : live 14 (remembered 2 none beats) ≡ none
seen_two = refl

map_run-sees_example :
    let m = map_run new_map_core beats in
    (map_get m 1 14 ≡ live 14 (remembered 1 none beats))
    × (Assoc.get 1 (present_at m 14) ≡ live 14 (remembered 1 none beats))
map_run-sees_example = map_run-sees beats 1 14 (omega arith, (omega arith, tt))
