-- ===== src/Resilience/Retry.antt =====
-- resilience.go, `RetryPolicyCore`: the delay of an attempt.
use native.Mathlib.Nat.{mul-div_cancel, div-lt_iff_lt-mul, mul-le-mul}
use lazily_go.Base.{
  ◌%◌, ◌*◌, ◌+◌, ◌-◌, ◌/◌, ◌<◌, ◌^◌, ◌≡◌, ◌≤◌, ◌⊎◌, Bool-cases, arith, inl, inr, leb, ltb, min,
  subst, suc, sym, zero, ℕ,
}
use lazily_go.Resilience.{RetryPolicyCore, delay}
use lazily_go.Base.Word.{word_mod}

one_le_pow : (n : ℕ) → 1 ≤ 2 ^ n
one_le_pow zero = omega arith
one_le_pow (suc n) = omega (arith, one_le_pow n)

word_le_pow : (k n : ℕ) → n ≡ k + 64 → word_mod ≤ 2 ^ n
word_le_pow zero n e = subst (λ m. word_mod ≤ 2 ^ m) (sym e) (omega arith)
word_le_pow (suc k) zero e = omega arith
word_le_pow (suc k) (suc n) e = omega (arith, word_le_pow k n (omega arith))

-- A product that has left `uint64` does not give its factor back.
lost : (b p : ℕ) → 1 ≤ p → word_mod ≤ b * p → (b * p) % word_mod / p < b
lost b p h over = (div-lt_iff_lt-mul h).1 (omega arith)

delay_late :
    (r : RetryPolicyCore) (a : ℕ)
    → 64 ≤ a
    → r.cap_delay < word_mod
    → 1 ≤ r.base
    → delay r a ≡ min r.cap_delay (r.base * 2 ^ a)
unfolding delay
delay_late r a late c b =
    let big = word_le_pow (a - 64) a (omega arith) in ground (arith, big, mul-le-mul b big)

delay_fits :
    (r : RetryPolicyCore) (a : ℕ)
    → a < 64
    → r.base * 2 ^ a < word_mod
    → delay r a ≡ min r.cap_delay (r.base * 2 ^ a)
unfolding delay
delay_fits r a early fits = ground (arith, mul-div_cancel r.base (one_le_pow a))

delay_lost :
    (r : RetryPolicyCore) (a : ℕ)
    → a < 64
    → r.cap_delay < word_mod
    → word_mod ≤ r.base * 2 ^ a
    → delay r a ≡ min r.cap_delay (r.base * 2 ^ a)
unfolding delay
delay_lost r a early c over = ground (arith, lost r.base (2 ^ a) (one_le_pow a) over)

-- The delay of an attempt is the base doubled that many times, and at most the cap, although the code
-- works in `uint64`. The base is not 0 or the attempt is below 64.
pub delay-saturates :
    (r : RetryPolicyCore) (attempt : ℕ)
    → r.cap_delay < word_mod
    → (1 ≤ r.base) ⊎ (attempt < 64)
    → delay r attempt ≡ min r.cap_delay (r.base * 2 ^ attempt)
delay-saturates r attempt c early = elim (Bool-cases (leb 64 attempt)) [
  | inl late ↦ delay_late r attempt (ground arith) c (ground arith)
  | inr soon ↦ elim (Bool-cases (ltb (r.base * 2 ^ attempt) word_mod)) [
    | inl fits ↦ delay_fits r attempt (ground arith) (ground arith)
    | inr over ↦ delay_lost r attempt (ground arith) c (ground arith)
  ]
]
