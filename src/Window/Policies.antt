-- ===== src/Window/Policies.antt =====
-- merge.go: the laws that a policy and its flags stand for.
use lazily_go.Base.{◌≡◌, arith, false, true}
use lazily_go.Window.{Number, uint64, MergePolicy}

module _ {ℓ} {T : Type ℓ} where
  abbrev pub Associative : (T → T → T) → Type ℓ
  Associative f = (a b c : T) → f (f a b) c ≡ f a (f b c)

  -- A merge is associative, commutes where the policy says so, and repeats without effect where it
  -- says so.
  pub record IsLawful (p : MergePolicy T) : Type ℓ where
    pub associative : Associative p.merge
    pub commutes : p.commutative ≡ true → (a b : T) → p.merge a b ≡ p.merge b a
    pub repeats : p.idempotent ≡ true → (a op : T) → p.merge (p.merge a op) op ≡ p.merge a op

-- What the integer types of Go promise of `+` and `>`: a sum that wraps is associative and commutes,
-- and the order is strict and total.
pub record IsInteger {ℓ} {N : Type ℓ} (n : Number N) : Type ℓ where
  pub plus_assoc : Associative n.plus
  pub plus_comm : (a b : N) → n.plus a b ≡ n.plus b a
  pub irreflexive : (a : N) → n.greater a a ≡ false
  pub transitive : (a b c : N) → n.greater a b ≡ true → n.greater b c ≡ true → n.greater a c ≡ true
  pub total : (a b : N) → n.greater a b ≡ false → n.greater b a ≡ false → a ≡ b

pub uint64-IsInteger : IsInteger uint64
uint64-IsInteger = record {
  plus_assoc = λ a b c. omega arith;
  plus_comm = λ a b. omega arith;
  irreflexive = λ a. ground arith;
  transitive = λ a b c h i. ground arith;
  total = λ a b h i. ground arith;
}
