-- ===== src/KeyedOrder/Tests.antt =====
-- keyed_order.go: runs, and the theorems on concrete keys.
use lazily_go.Base.{
  ◌-◌, ◌∷◌, ◌≡◌, List, Option, [], arith, none, refl, some, ℕ, ℕ_comparable, bool_comparable,
  option_comparable,
}
use lazily_go.KeyedOrder.{
  KeyedOrder, MapMove, move_after, move_before, move_to, new_keyed_order, position_from,
}
use lazily_go.KeyedOrder.Moves.{Lands, key_first, moves-Lands}
use lazily_go.KeyedOrder.Lockstep.{Lockstep}
use lazily_go.KeyedOrder.Runs.{
  inserts, moves_before, moves_to, order_run, order_run-Lockstep, removes,
}
use lazily_go.Base.Word.{zero_i64}

abbrev four : KeyedOrder ℕ ℕ
four = record { entries = (1, 10) ∷ (2, 20) ∷ (3, 30) ∷ (4, 40) ∷ []; order = 1 ∷ 2 ∷ 3 ∷ 4 ∷ [] }

abbrev order_of : Option (KeyedOrder ℕ ℕ × MapMove) → List ℕ
order_of none = []
order_of (some (k, m)) = k.order

-- The case that the comment of `moveBefore` names.
before_later : order_of (move_before four 1 4) ≡ 2 ∷ 3 ∷ 1 ∷ 4 ∷ []
unfolding move_before position_from
before_later = refl

after_earlier : order_of (move_after four 4 1) ≡ 1 ∷ 4 ∷ 2 ∷ 3 ∷ []
unfolding move_after position_from
after_earlier = refl

far_left : order_of (move_to four 3 (zero_i64 - 5)) ≡ 3 ∷ 1 ∷ 2 ∷ 4 ∷ []
unfolding move_to position_from
far_left = refl

moves-Lands_example :
    Lands four (move_before four 1 4) (2 ∷ 3 ∷ 1 ∷ 4 ∷ [])
    × Lands four (move_after four 1 4) (2 ∷ 3 ∷ 4 ∷ 1 ∷ [])
moves-Lands_example =
    moves-Lands four 1 4 (1 ∷ 2 ∷ 3 ∷ 4 ∷ []) (2 ∷ 3 ∷ []) [] (λ e. absurd (omega arith)) refl
      (key_first [] (2 ∷ 3 ∷ []) [] tt tt
        ((λ e. absurd (omega arith)), ((λ e. absurd (omega arith)), tt)))

order_run-Lockstep_example :
    (k : KeyedOrder ℕ ℕ) × (order_run new_keyed_order (
        inserts 5 50
        ∷ inserts 6 60
        ∷ inserts 5 51
        ∷ moves_before 6 5
        ∷ removes 5
        ∷ moves_to 6 0
        ∷ [])
      ≡ some k)
    × Lockstep k
order_run-Lockstep_example =
    order_run-Lockstep (
      inserts 5 50 ∷ inserts 6 60 ∷ inserts 5 51 ∷ moves_before 6 5 ∷ removes 5 ∷ moves_to 6 0 ∷ [])
