-- ===== src/Hlc/Tests.antt =====
-- The clock at concrete stamps: the theorems of Hlc/Order and Hlc/Clock applied.
use lazily_go.Base.{
  ◌↔◌, ◌∷◌, ◌≡◌, List, Ordering, [], arith, refl, true, ℕ_comparable, bool_comparable,
  option_comparable,
}
use lazily_go.Hlc.{Hlc, HlcStamp, compare, greater, last_stamp, less, new_hlc, tick}
use lazily_go.Hlc.Order.{Below, compare-IsTotalOrder}
use lazily_go.Hlc.Clock.{Event, Rising, local, received, stamps, stamps-new_hlc-Rising, tick_wraps}

abbrev early : HlcStamp
early = record { wall_time = 9223372036854775908; logical = 9223372036854775808; peer = 1 }

abbrev late : HlcStamp
late = record { wall_time = 9223372036854775908; logical = 9223372036854775810; peer = 2 }

abbrev clock : Hlc
clock = record { peer = 1; last_wall = 9223372036854775908; last_logical = 9223372036854775809 }

compare-IsTotalOrder_example :
    ((less early late ≡ true) ↔ Below early late)
    × ((compare early late ≡ Ordering.eq) ↔ (early ≡ late))
    × (greater early late ≡ less late early)
    × (less early late ≡ true → less late late ≡ true → less early late ≡ true)
compare-IsTotalOrder_example = compare-IsTotalOrder early late late

abbrev worn : Hlc
worn = record clock { last_logical = 18446744073709551615 }

tick_wraps_example : less (tick worn 9223372036854775807).1 (last_stamp worn) ≡ true
tick_wraps_example = tick_wraps worn 9223372036854775807 refl (omega arith)

abbrev life : List Event
life = local 9223372036854775900 ∷ received late 9223372036854775901 ∷ local 5 ∷ []

stamps-new_hlc-Rising_example : Rising (last_stamp (new_hlc 7)) (stamps (new_hlc 7) life)
stamps-new_hlc-Rising_example =
    stamps-new_hlc-Rising 9223372036854775810 7 life (omega arith) (omega arith) (omega arith)
