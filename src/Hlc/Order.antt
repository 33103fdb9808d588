-- ===== src/Hlc/Order.antt =====
-- hlc.go, `Compare` and the tests on it.
use lazily_go.Base.{◌<◌, ◌↔◌, ◌≡◌, ◌⊎◌, Ordering, arith, true}
use lazily_go.Hlc.{HlcStamp, compare, less, less_equal, greater, greater_equal}

-- The lexicographic order itself.
abbrev pub Below : HlcStamp → HlcStamp → Type 0
Below a b =
    (a.wall_time < b.wall_time)
    ⊎ ((a.wall_time ≡ b.wall_time)
        × ((a.logical < b.logical) ⊎ ((a.logical ≡ b.logical) × (a.peer < b.peer))))

pub less→Below : (a b : HlcStamp) → less a b ≡ true → Below a b
unfolding less
less→Below a b h = ground arith

pub Below→less : (a b : HlcStamp) → Below a b → less a b ≡ true
unfolding less
Below→less a b h = ground arith

compare_eq : (a b : HlcStamp) → compare a b ≡ Ordering.eq → a ≡ b
unfolding compare
compare_eq a b h = ground arith

compare_refl : (a b : HlcStamp) → a ≡ b → compare a b ≡ Ordering.eq
unfolding compare
compare_refl a b h = rw h (ground arith)

greater-flip : (a b : HlcStamp) → greater a b ≡ less b a
unfolding greater less
greater-flip a b = ground arith

pub less_trans : (a b c : HlcStamp) → less a b ≡ true → less b c ≡ true → less a c ≡ true
unfolding less
less_trans a b c h k = ground arith

-- `Compare` is a total order on stamps: it is the lexicographic order of wall time, logical time and
-- peer, it says `eq` exactly of equal stamps, it turns round with its arguments, and `Less` is
-- transitive.
pub compare-IsTotalOrder :
    (a b c : HlcStamp)
    → ((less a b ≡ true) ↔ Below a b)
      × ((compare a b ≡ Ordering.eq) ↔ (a ≡ b))
      × (greater a b ≡ less b a)
      × (less a b ≡ true → less b c ≡ true → less a c ≡ true)
compare-IsTotalOrder a b c = (
  (less→Below a b, Below→less a b),
  (compare_eq a b, compare_refl a b),
  greater-flip a b,
  less_trans a b c,
)

pub less_equal_trans :
    (a b c : HlcStamp) → less_equal a b ≡ true → less_equal b c ≡ true → less_equal a c ≡ true
unfolding less_equal
less_equal_trans a b c h k = ground arith

pub less_equal_refl : (a : HlcStamp) → less_equal a a ≡ true
unfolding less_equal
less_equal_refl a = ground arith

pub less_equal_antisymm : (a b : HlcStamp) → less_equal a b ≡ true → less_equal b a ≡ true → a ≡ b
unfolding less_equal
less_equal_antisymm a b h k = ground arith

pub greater_equal-flip : (a b : HlcStamp) → greater_equal a b ≡ less_equal b a
unfolding greater_equal less_equal
greater_equal-flip a b = ground arith
