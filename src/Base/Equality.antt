-- ===== src/Base/Equality.antt =====
-- Go's `comparable`: a type whose values are compared by `==`.
use mathlib.Core.Path.{◌≡◌, refl}
use mathlib.Core.Logic.{◌↔◌}
use mathlib.Core.Bool.{Bool, true, false}
use mathlib.Core.Option.{Option, none, some}
use native.Mathlib.Omega.{arith}
use Prim.Native.Nat.{ℕ}
use lazily_go.Base.Tests.{◌==◌, ==_iff}

pub record Comparable {ℓ} (A : Type ℓ) : Type ℓ where
  pub eq : A → A → Bool
  pub eq_iff : (a b : A) → (eq a b ≡ true) ↔ (a ≡ b)

abbrev pub equal {ℓ} : {A : Type ℓ} ⦃c : Comparable A⦄ → A → A → Bool
equal ⦃c⦄ = c.eq

pub equal_refl {ℓ} : {A : Type ℓ} ⦃c : Comparable A⦄ (a : A) → equal a a ≡ true
equal_refl ⦃c⦄ a = (c.eq_iff a a).1 refl

instance abbrev pub ℕ_comparable : Comparable ℕ
ℕ_comparable = record { eq = ◌==◌; eq_iff = ==_iff }

abbrev pub bool_eq : Bool → Bool → Bool
bool_eq true true = true
bool_eq false false = true
bool_eq _ _ = false

pub bool_eq_iff : (a b : Bool) → (bool_eq a b ≡ true) ↔ (a ≡ b)
bool_eq_iff a b = ground arith

instance abbrev pub bool_comparable : Comparable Bool
bool_comparable = record { eq = bool_eq; eq_iff = bool_eq_iff }

abbrev pub option_eq {ℓ} : {A : Type ℓ} ⦃c : Comparable A⦄ → Option A → Option A → Bool
option_eq none none = true
option_eq (some a) (some b) = equal a b
option_eq none (some b) = false
option_eq (some a) none = false

pub option_eq_iff {ℓ} :
    {A : Type ℓ} ⦃c : Comparable A⦄ (a b : Option A) → (option_eq a b ≡ true) ↔ (a ≡ b)
option_eq_iff none none = (λ _. refl, λ _. refl)
option_eq_iff ⦃c⦄ (some a) (some b) = ground (arith, c.eq_iff a b)
option_eq_iff none (some b) = (λ h. cc, λ h. cc)
option_eq_iff (some a) none = (λ h. cc, λ h. cc)

instance abbrev pub option_comparable {ℓ} : {A : Type ℓ} ⦃c : Comparable A⦄ → Comparable (Option A)
option_comparable = record { eq = option_eq; eq_iff = option_eq_iff }
