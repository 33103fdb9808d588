-- ===== src/Base/Lists.antt =====
-- Lists measured by native numbers, and predicates on lists by recursion.
use Prim.Native.Nat.{ℕ, zero, suc, ◌+◌, ◌-◌}
use mathlib.Core.Path.{subst, sym, ◌∙◌, ap, ◌≡◌, refl}
use mathlib.Core.Logic.{◌⊎◌, inl, inr}
use mathlib.Core.List.{map, List, [], ◌∷◌, ◌++◌}
use mathlib.Core.Option.{Option, none, some}
use lazily_go.Base.Tests.{some_inj, Bool-cases, ==_iff, ◌==◌, if◌then◌else◌}
use native.Mathlib.Omega.{arith}

-- The type with no element, at every level.
pub data Never {ℓ} : Type ℓ where

module _ {ℓ} {A : Type ℓ} where
  abbrev pub length : List A → ℕ
  length [] = 0
  length (x ∷ xs) = suc (length xs)

  abbrev pub drop : ℕ → List A → List A
  drop zero xs = xs
  drop (suc n) [] = []
  drop (suc n) (x ∷ xs) = drop n xs

  abbrev pub take : ℕ → List A → List A
  take zero xs = []
  take (suc n) [] = []
  take (suc n) (x ∷ xs) = x ∷ take n xs

  pub length-append : (xs ys : List A) → length (xs ++ ys) ≡ length xs + length ys
  length-append [] ys = omega arith
  length-append (x ∷ xs) ys = omega (arith, length-append xs ys)

  pub length-drop : (n : ℕ) (xs : List A) → length (drop n xs) ≡ length xs - n
  length-drop zero xs = omega arith
  length-drop (suc n) [] = omega arith
  length-drop (suc n) (x ∷ xs) = omega (arith, length-drop n xs)

  -- Every element satisfies the predicate.
  abbrev pub All {κ} : (A → Type κ) → List A → Type κ
  All P [] = Unit
  All P (x ∷ xs) = P x × All P xs

  -- Some element satisfies the predicate.
  abbrev pub Any {κ} : (A → Type κ) → List A → Type κ
  Any P [] = Never
  Any P (x ∷ xs) = P x ⊎ Any P xs

-- `a` stands in the list.
abbrev pub In {ℓ} : {A : Type ℓ} → A → List A → Type ℓ
In a = Any (λ x. x ≡ a)

-- A property of every element that stands in the list.
pub All-of_In {ℓ κ} :
    {A : Type ℓ} (P : A → Type κ) (xs : List A) → ((a : A) → In a xs → P a) → All P xs
All-of_In P [] h = tt
All-of_In P (x ∷ xs) h = (h x (inl refl), All-of_In P xs (λ a i. h a (inr i)))

-- Some element with a property stands in the list.
pub In-of_Any {ℓ κ} :
    {A : Type ℓ} (P : A → Type κ) (xs : List A) → Any P xs → (a : A) × In a xs × P a
In-of_Any P [] h = elim h [ ]
In-of_Any P (x ∷ xs) (inl p) = (x, inl refl, p)
In-of_Any P (x ∷ xs) (inr later) = let (a, i, p) = In-of_Any P xs later in (a, inr i, p)

module _ {ℓ} {A : Type ℓ} where
  abbrev pub get_elem? : List A → ℕ → Option A
  get_elem? [] i = none
  get_elem? (x ∷ xs) zero = some x
  get_elem? (x ∷ xs) (suc i) = get_elem? xs i

  -- A write out of bounds changes nothing.
  abbrev pub set : List A → ℕ → A → List A
  set [] i v = []
  set (x ∷ xs) zero v = v ∷ xs
  set (x ∷ xs) (suc i) v = x ∷ set xs i v

  pub get_elem?-set :
      (xs : List A) (i j : ℕ) (v w : A)
      → get_elem? xs i ≡ some w
      → get_elem? (set xs i v) j ≡ (if i == j then some v else get_elem? xs j)
  get_elem?-set [] i j v w h = cc
  get_elem?-set (x ∷ xs) zero zero v w h = ground arith
  get_elem?-set (x ∷ xs) zero (suc j) v w h = ground arith
  get_elem?-set (x ∷ xs) (suc i) zero v w h = ground arith
  get_elem?-set (x ∷ xs) (suc i) (suc j) v w h = ground (arith, get_elem?-set xs i j v w h)

  -- A number for each element, added up.
  abbrev pub total : (A → ℕ) → List A → ℕ
  total f [] = 0
  total f (x ∷ xs) = f x + total f xs

  pub total-set :
      (f : A → ℕ) (xs : List A) (i : ℕ) (v w : A)
      → get_elem? xs i ≡ some w
      → total f (set xs i v) + f w ≡ total f xs + f v
  total-set f [] i v w h = cc
  total-set f (x ∷ xs) zero v w h = ground arith
  total-set f (x ∷ xs) (suc i) v w h = omega (arith, total-set f xs i v w h)

  pub total-append : (f : A → ℕ) (xs ys : List A) → total f (xs ++ ys) ≡ total f xs + total f ys
  total-append f [] ys = omega arith
  total-append f (x ∷ xs) ys = omega (arith, total-append f xs ys)

  pub In-append_left : (a : A) (xs ys : List A) → In a xs → In a (xs ++ ys)
  In-append_left a [] ys i = elim i [ ]
  In-append_left a (x ∷ xs) ys (inl e) = inl e
  In-append_left a (x ∷ xs) ys (inr i) = inr (In-append_left a xs ys i)

  pub In-append_right : (a : A) (xs ys : List A) → In a ys → In a (xs ++ ys)
  In-append_right a [] ys i = i
  In-append_right a (x ∷ xs) ys i = inr (In-append_right a xs ys i)

  pub In-append : (a : A) (xs ys : List A) → In a (xs ++ ys) → In a xs ⊎ In a ys
  In-append a [] ys i = inr i
  In-append a (x ∷ xs) ys (inl e) = inl (inl e)
  In-append a (x ∷ xs) ys (inr i) = elim (In-append a xs ys i) [
    | inl l ↦ inl (inr l)
    | inr r ↦ inr r
  ]

module _ {ℓ κ} {A : Type ℓ} {B : Type κ} where
  -- A write that a function does not see.
  pub map-set_same :
      (f : A → B) (xs : List A) (i : ℕ) (v w : A)
      → get_elem? xs i ≡ some w
      → f v ≡ f w
      → map f (set xs i v) ≡ map f xs
  map-set_same f [] i v w h e = cc
  map-set_same f (x ∷ xs) zero v w h e = ground arith
  map-set_same f (x ∷ xs) (suc i) v w h e = ap (◌∷◌ (f x)) (map-set_same f xs i v w h e)

  -- What stands at a place in one of two lists that a function does not tell apart.
  pub get_elem?-map_same :
      (f : A → B) (xs ys : List A) (i : ℕ) (x : A)
      → map f xs ≡ map f ys
      → get_elem? xs i ≡ some x
      → (y : A) × (get_elem? ys i ≡ some y) × (f x ≡ f y)
  get_elem?-map_same f [] ys i x e h = cc
  get_elem?-map_same f (a ∷ xs) [] i x e h = cc
  get_elem?-map_same f (a ∷ xs) (b ∷ ys) zero x e h = (b, refl, ground arith)
  get_elem?-map_same f (a ∷ xs) (b ∷ ys) (suc i) x e h =
      get_elem?-map_same f xs ys i x (ground arith) h

pub All-map {ℓ κ μ} :
    {A : Type ℓ} {P : A → Type κ} {Q : A → Type μ} (xs : List A)
    → ((a : A) → P a → Q a)
    → All P xs
    → All Q xs
All-map [] f h = tt
All-map (x ∷ xs) f h = (f x h.0, All-map xs f h.1)

-- What stands at a place after a write: what was written there, or what was there.
pub get_elem?-set_cases {ℓ} :
    {A : Type ℓ} (xs : List A) (i j : ℕ) (v w x : A)
    → get_elem? xs i ≡ some w
    → get_elem? (set xs i v) j ≡ some x
    → ((i ≡ j) × (v ≡ x)) ⊎ (get_elem? xs j ≡ some x)
get_elem?-set_cases xs i j v w x e h = elim (Bool-cases (i == j)) [
  | inl same ↦
      inl ((==_iff i j).0 same, some_inj (rw same at (sym (get_elem?-set xs i j v w e) ∙ h)))
  | inr other ↦ inr (rw other at (sym (get_elem?-set xs i j v w e) ∙ h))
]

pub All-append_right {ℓ κ} :
    {A : Type ℓ} (P : A → Type κ) (xs ys : List A) → All P (xs ++ ys) → All P ys
All-append_right P [] ys h = h
All-append_right P (x ∷ xs) ys h = All-append_right P xs ys h.1

pub All-append {ℓ κ} :
    {A : Type ℓ} (P : A → Type κ) (xs ys : List A) → All P xs → All P ys → All P (xs ++ ys)
All-append P [] ys h k = k
All-append P (x ∷ xs) ys h k = (h.0, All-append P xs ys h.1 k)

pub All_at {ℓ κ} : {A : Type ℓ} (P : A → Type κ) (xs : List A) (a : A) → All P xs → In a xs → P a
All_at P [] a h i = elim i [ ]
All_at P (x ∷ xs) a h (inl e) = subst P e h.0
All_at P (x ∷ xs) a h (inr i) = All_at P xs a h.1 i
