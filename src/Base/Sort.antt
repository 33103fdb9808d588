-- ===== src/Base/Sort.antt =====
-- `sort.Slice` on a slice of numbers, as insertion sort.
use lazily_go.Base.Tests.{leb, if◌then◌else◌}
use mathlib.Core.List.{List, [], ◌∷◌}
use Prim.Native.Nat.{ℕ}
use mathlib.Core.Path.{◌≡◌}
use mathlib.Core.Logic.{◌⊎◌, ◌↔◌}
use native.Mathlib.Omega.{arith}
use lazily_go.Base.Lists.{In}

pub insert : ℕ → List ℕ → List ℕ
insert x [] = x ∷ []
insert x (y ∷ ys) = if leb x y then x ∷ y ∷ ys else y ∷ insert x ys

unfoldable pub sort : List ℕ → List ℕ
unfolding insert
sort [] = []
sort (x ∷ xs) = insert x (sort xs)

In-insert : (a x : ℕ) (ys : List ℕ) → In a (insert x ys) ↔ ((x ≡ a) ⊎ In a ys)
unfolding insert
In-insert a x [] = (λ h. h, λ h. h)
In-insert a x (y ∷ ys) = grind (arith, In-insert a x ys)

pub In-sort : (a : ℕ) (xs : List ℕ) → In a (sort xs) ↔ In a xs
unfolding sort
In-sort a [] = (λ h. h, λ h. h)
In-sort a (x ∷ xs) = grind (arith, In-insert a x (sort xs), In-sort a xs)
