-- ===== src/Base/Word.antt =====
-- Go's machine integers. A `uint64` is a number below 2^64. An `int64` x is the number x + 2^63,
-- so that the order of the integers is the order of the numbers and both types wrap modulo 2^64.
use Prim.Native.Nat.{ℕ, ◌+◌, ◌%◌, ◌-◌, ◌<◌, ◌≤◌}
use mathlib.Core.Bool.{Bool, true, false, ◌||◌}
use mathlib.Core.Logic.{inl, inr}
use mathlib.Core.Path.{◌≡◌}
use native.Mathlib.Omega.{arith}
use lazily_go.Base.Tests.{ltb, Bool-cases}

abbrev pub word_mod : ℕ
word_mod = 18446744073709551616

abbrev pub max_uint64 : ℕ
max_uint64 = 18446744073709551615

-- `a + b` on `uint64`.
abbrev pub add_u64 : ℕ → ℕ → ℕ
add_u64 a b = (a + b) % word_mod

-- `a - b` on `uint64`.
abbrev pub sub_u64 : ℕ → ℕ → ℕ
sub_u64 a b = (a + word_mod - b) % word_mod

-- The `int64` 0.
abbrev pub zero_i64 : ℕ
zero_i64 = 9223372036854775808

-- The largest `int64`.
abbrev pub max_i64 : ℕ
max_i64 = 18446744073709551615

-- `a++` on `int64`.
abbrev pub inc_i64 : ℕ → ℕ
inc_i64 a = (a + 1) % word_mod

-- `a + b` on `int64`.
abbrev pub add_i64 : ℕ → ℕ → ℕ
add_i64 a b = (a + b + zero_i64) % word_mod

-- `<` on `int`s that are written in two's complement: a negative x is the number 2^64 + x.
abbrev pub int_lt : ℕ → ℕ → Bool
int_lt a b = ltb ((a + zero_i64) % word_mod) ((b + zero_i64) % word_mod)

pub int_lt-small : (a b : ℕ) → a < zero_i64 → b < zero_i64 → int_lt a b ≡ ltb a b
int_lt-small a b ha hb =
    let same_a : (a + zero_i64) % word_mod ≡ a + zero_i64 = omega arith in
    let same_b : (b + zero_i64) % word_mod ≡ b + zero_i64 = omega arith in
    rw (same_a, same_b) (ground arith)

pub int_lt-negative : (a : ℕ) → zero_i64 ≤ a → a < word_mod → int_lt a 0 ≡ true
int_lt-negative a low high =
    let moved : (a + zero_i64) % word_mod ≡ a - zero_i64 = omega arith in rw moved (ground arith)

-- A number that no `int` bound refuses, and the bounds as they are meant.
pub int_between :
    (low high n : ℕ)
    → low < zero_i64
    → high < zero_i64
    → n < word_mod
    → (int_lt n low || int_lt high n) ≡ false
    → (low ≤ n) × (n ≤ high)
int_between low high n l h w out = elim (Bool-cases (ltb n zero_i64)) [
  | inl natural ↦
      let small : n < zero_i64 = ground arith in
      let left = int_lt-small n low small l in
      let right = int_lt-small high n h small in (ground arith, ground arith)
  | inr negative ↦
      let big : zero_i64 ≤ n = ground arith in
      let moved : (n + zero_i64) % word_mod ≡ n - zero_i64 = omega arith in
      let kept : (low + zero_i64) % word_mod ≡ low + zero_i64 = omega arith in
      let under : int_lt n low ≡ true = rw (moved, kept) (ground arith) in absurd (ground arith)
]

pub between-int :
    (low high n : ℕ)
    → high < zero_i64
    → low ≤ n
    → n ≤ high
    → (int_lt n low || int_lt high n) ≡ false
between-int low high n h l m =
    let left = int_lt-small n low (omega arith) (omega arith) in
    let right = int_lt-small high n h (omega arith) in ground arith
