-- ===== src/KeyedOrder/Moves.antt =====
-- keyed_order.go: where a move leaves its key.
use mathlib.Core.List.{append_assoc}
use lazily_go.Base.{
  ◌+◌, ◌++◌, ◌-◌, ◌==◌, if◌then◌else◌, ◌∙◌, ◌∷◌, ◌≡◌, ◌≢◌, ◌≤◌, ==_iff, All, All-append, Bool-cases,
  Comparable, List, Option, [], ap, arith, equal, equal_refl, false, inl, inr, leb, length,
  length-append, ltb, refl, some, subst, sym, ℕ, ℕ_comparable, bool_comparable, option_comparable,
}
use lazily_go.KeyedOrder.{
  position_from, KeyedOrder, MapMove, clamped, int_of, move_from, move_to, position, reordered,
  unchanged, move_after, move_before, rotate,
}
use lazily_go.KeyedOrder.Rotate.{insert_at, insert_at-right, rotate-insert_at}

module _ {ℓ} {K : Type ℓ} ⦃c : Comparable K⦄ where
  -- The key does not stand in the list.
  abbrev pub Lacks : K → List K → Type ℓ
  Lacks key xs = All (λ x. x ≢ key) xs

  not_equal : (a b : K) → a ≢ b → equal a b ≡ false
  not_equal a b other = elim (Bool-cases (equal a b)) [
    | inl same ↦ absurd (other ((c.eq_iff a b).0 same))
    | inr f ↦ f
  ]

  position_from-append :
      (i : ℕ) (key : K) (xs ys : List K)
      → Lacks key xs
      → position_from i key (xs ++ key ∷ ys) ≡ some (i + length xs)
  unfolding position_from
  position_from-append i key [] ys l = rw (equal_refl key) (ap some (omega arith))
  position_from-append i key (x ∷ xs) ys l =
      rw (not_equal x key l.0) (position_from-append (i + 1) key xs ys l.1 ∙ ap some (omega arith))

  -- A key and an anchor stand apart in the order, and `before` and `after` are what stands around the
  -- anchor once the key is lifted out.
  pub data Apart (key anchor : K) : List K → List K → List K → Type ℓ where
    key_first :
        (xs ms ys : List K)
        → Lacks key xs
        → Lacks anchor xs
        → Lacks anchor ms
        → Apart key anchor (xs ++ key ∷ (ms ++ anchor ∷ ys)) (xs ++ ms) ys
    anchor_first :
        (xs ms ys : List K)
        → Lacks anchor xs
        → Lacks key xs
        → Lacks key ms
        → Apart key anchor (xs ++ anchor ∷ (ms ++ key ∷ ys)) xs (ms ++ ys)

-- Put in where it was, a key is where it was.
put_back {ℓ} :
    {K : Type ℓ} (xs ys : List K) (key : K) → insert_at (length xs) key (xs ++ ys) ≡ xs ++ key ∷ ys
put_back xs ys key =
    let end : length xs ≡ length xs + 0 = omega arith in
    ap (λ n. insert_at n key (xs ++ ys)) end ∙ insert_at-right xs ys key 0

module _ {ℓ κ} {K : Type ℓ} {H : Type κ} ⦃c : Comparable K⦄ where
  abbrev pub Lands : KeyedOrder K H → Option (KeyedOrder K H × MapMove) → List K → Type (ℓ ⊔ κ)
  Lands k result order = (m : MapMove) × (result ≡ some (record k { order = order }, m))

  found_at :
      (k : KeyedOrder K H) (xs ys : List K) (key : K)
      → k.order ≡ xs ++ key ∷ ys
      → Lacks key xs
      → position k key ≡ some (length xs)
  unfolding position
  found_at k xs ys key e l = rw e (position_from-append 0 key xs ys l ∙ ap some (omega arith))

  pub move_from-Lands :
      (k : KeyedOrder K H) (xs ys : List K) (key : K) (to : ℕ)
      → k.order ≡ xs ++ key ∷ ys
      → to ≤ length xs + length ys
      → Lands k (move_from k (length xs) to) (insert_at to key (xs ++ ys))
  unfolding move_from
  move_from-Lands k xs ys key to e h = elim (Bool-cases (length xs == to)) [
    | inl same ↦ (
      unchanged,
      rw (same, move_from)
          (ap (λ o. some (record k { order = o }, unchanged))
            (e
              ∙ sym (put_back xs ys key)
              ∙ ap (λ n. insert_at n key (xs ++ ys)) ((==_iff (length xs) to).0 same))),
    )
    | inr other ↦
        let turned : rotate k.order (length xs) to ≡ some (insert_at to key (xs ++ ys)) =
          ap (λ o. rotate o (length xs) to) e ∙ rotate-insert_at xs ys key to h in
        (reordered, rw (other, turned) refl)
  ]

  move_to-Lands :
      (k : KeyedOrder K H) (xs ys : List K) (key : K) (to : ℕ)
      → k.order ≡ xs ++ key ∷ ys
      → Lacks key xs
      → to ≤ length xs + length ys
      → Lands k (move_to k key (int_of to)) (insert_at to key (xs ++ ys))
  unfolding move_to position
  move_to-Lands k xs ys key to e l h =
      let found : position k key ≡ some (length xs) = found_at k xs ys key e l in
      let kept : clamped (int_of to) (length k.order) ≡ to =
        rw e (ground (arith, length-append xs (key ∷ ys))) in
      rw (move_to, found)
        (subst (λ t. Lands k (move_from k (length xs) t) (insert_at to key (xs ++ ys))) (sym kept)
          (move_from-Lands k xs ys key to e h))

  -- Moved to a place behind `before`, the key lands among the rest.
  Lands-behind :
      (k : KeyedOrder K H) (xs ys : List K) (key : K) (to n : ℕ) (before rest : List K)
      → k.order ≡ xs ++ key ∷ ys
      → Lacks key xs
      → xs ++ ys ≡ before ++ rest
      → to ≡ length before + n
      → n ≤ length rest
      → Lands k (move_to k key (int_of to)) (before ++ insert_at n key rest)
  Lands-behind k xs ys key to n before rest e l same at h =
      let count : length xs + length ys ≡ length before + length rest =
        sym (length-append xs ys) ∙ ap length same ∙ length-append before rest in
      subst (Lands k (move_to k key (int_of to)))
        (ap (λ o. insert_at to key o) same
          ∙ ap (λ t. insert_at t key (before ++ rest)) at
          ∙ insert_at-right before rest key n)
        (move_to-Lands k xs ys key to e l (omega (arith, count)))

  -- Both moves, once the places of the key and of the anchor are known.
  Lands-beside :
      (k : KeyedOrder K H) (xs ys : List K) (key anchor : K) (at : ℕ) (before after : List K)
      → k.order ≡ xs ++ key ∷ ys
      → Lacks key xs
      → position k anchor ≡ some at
      → xs ++ ys ≡ before ++ anchor ∷ after
      → (if ltb (length xs) at then at - 1 else at) ≡ length before
      → (if leb (length xs) at then at else at + 1) ≡ length before + 1
      → Lands k (move_before k key anchor) (before ++ key ∷ anchor ∷ after)
        × Lands k (move_after k key anchor) (before ++ anchor ∷ key ∷ after)
  unfolding move_before move_after
  Lands-beside k xs ys key anchor at before after e l found rest left right = (
    rw (move_before, found, found_at k xs ys key e l)
        (Lands-behind k xs ys key (if ltb (length xs) at then at - 1 else at) 0 before
          (anchor ∷ after) e l rest (left ∙ omega arith) (omega arith)),
    rw (move_after, found, found_at k xs ys key e l)
        (Lands-behind k xs ys key (if leb (length xs) at then at else at + 1) 1 before
          (anchor ∷ after) e l rest right (omega arith)),
  )

  -- A key that stands apart from an anchor is moved next to it: `moveBefore` sets it down right before
  -- the anchor, `moveAfter` right behind it, whichever of the two came first, and all other keys keep
  -- their order.
  pub moves-Lands :
      (k : KeyedOrder K H) (key anchor : K) (order before after : List K)
      → key ≢ anchor
      → k.order ≡ order
      → Apart key anchor order before after
      → Lands k (move_before k key anchor) (before ++ key ∷ anchor ∷ after)
        × Lands k (move_after k key anchor) (before ++ anchor ∷ key ∷ after)
  moves-Lands k key anchor _ _ after other e (key_first xs ms ys l l' l'') =
      Lands-beside k xs (ms ++ anchor ∷ ys) key anchor (length (xs ++ key ∷ ms)) (xs ++ ms) ys e l
        (found_at k (xs ++ key ∷ ms) ys anchor (e ∙ sym (append_assoc xs (key ∷ ms) (anchor ∷ ys)))
          (All-append (λ x. x ≢ anchor) xs (key ∷ ms) l' (other, l'')))
        (sym (append_assoc xs ms (anchor ∷ ys)))
        (ground (arith, length-append xs (key ∷ ms), length-append xs ms))
        (ground (arith, length-append xs (key ∷ ms), length-append xs ms))
  moves-Lands k key anchor _ _ after other e (anchor_first xs ms ys l l' l'') =
      Lands-beside k (xs ++ anchor ∷ ms) ys key anchor (length xs) xs (ms ++ ys)
        (e ∙ sym (append_assoc xs (anchor ∷ ms) (key ∷ ys)))
        (All-append (λ x. x ≢ key) xs (anchor ∷ ms) l' ((λ same. other (sym same)), l''))
        (found_at k xs (ms ++ key ∷ ys) anchor e l) (append_assoc xs (anchor ∷ ms) ys)
        (ground (arith, length-append xs (anchor ∷ ms)))
        (ground (arith, length-append xs (anchor ∷ ms)))
