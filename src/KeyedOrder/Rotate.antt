-- ===== src/KeyedOrder/Rotate.antt =====
-- keyed_order.go, `rotate`: the slice copies, and a key that is lifted out and put in again.
use lazily_go.Base.{
  ◌+◌, ◌++◌, ◌-◌, ◌∙◌, ◌∷◌, ◌≡◌, ◌≤◌, Bool-cases, List, [], ap, arith, drop, get_elem?, inl, inr,
  length, length-append, ltb, ltb→lt, refl, set, some, subst, suc, sym, take, true, zero, ℕ,
}
use lazily_go.KeyedOrder.{rotate}

module _ {ℓ} {K : Type ℓ} where
  -- The list with a key put in at a place.
  abbrev pub insert_at : ℕ → K → List K → List K
  insert_at n key xs = take n xs ++ key ∷ drop n xs

  pub get_elem?-append :
      (xs ys : List K) (key : K) → get_elem? (xs ++ key ∷ ys) (length xs) ≡ some key
  get_elem?-append [] ys key = refl
  get_elem?-append (x ∷ xs) ys key = get_elem?-append xs ys key

  copied_up :
      (n : ℕ) (old key : K) (ys : List K)
      → n ≤ length ys
      → set (take n ys ++ drop n (old ∷ ys)) n key ≡ take n ys ++ key ∷ drop n ys
  copied_up zero old key ys h = refl
  copied_up (suc n) old key [] h = absurd (omega arith)
  copied_up (suc n) old key (y ∷ ys) h = ap (◌∷◌ y) (copied_up n y key ys (omega arith))

  rotated_up :
      (xs ys : List K) (key : K) (n : ℕ)
      → n ≤ length ys
      → let o = xs ++ key ∷ ys in
        set
          (take (length xs) o ++ take n (drop (suc (length xs)) o) ++ drop (length xs + n) o)
          (length xs + n)
          key
        ≡ xs ++ (take n ys ++ key ∷ drop n ys)
  rotated_up [] ys key n h =
      let none_before : 0 + n ≡ n = omega arith in rw none_before (copied_up n key key ys h)
  rotated_up (x ∷ xs) ys key n h =
      let up : suc (length xs) + n ≡ suc (length xs + n) = omega arith in
      rw up (ap (◌∷◌ x) (rotated_up xs ys key n h))

  take-append : (xs ys : List K) → take (length xs) (xs ++ ys) ≡ xs
  take-append [] ys = refl
  take-append (x ∷ xs) ys = ap (◌∷◌ x) (take-append xs ys)

  drop-append : (xs ys : List K) (key : K) → drop (suc (length xs)) (xs ++ key ∷ ys) ≡ ys
  drop-append [] ys key = refl
  drop-append (x ∷ xs) ys key = drop-append xs ys key

  rotated_down :
      (to : ℕ) (xs ys : List K) (key : K)
      → to ≤ length xs
      → let o = xs ++ key ∷ ys in
        set
          (take (suc to) o ++ take (length xs - to) (drop to o) ++ drop (suc (length xs)) o)
          to
          key
        ≡ take to xs ++ key ∷ drop to xs ++ ys
  rotated_down zero [] ys key h = refl
  rotated_down (suc to) [] ys key h = absurd (omega arith)
  rotated_down zero (x ∷ xs) ys key h =
      let all : suc (length xs) - 0 ≡ suc (length xs) = omega arith in
      rw (all, take-append xs (key ∷ ys), drop-append xs ys key) refl
  rotated_down (suc to) (x ∷ xs) ys key h =
      let less : suc (length xs) - suc to ≡ length xs - to = omega arith in
      rw less (ap (◌∷◌ x) (rotated_down to xs ys key (omega arith)))

  pub insert_at-right :
      (xs ys : List K) (key : K) (n : ℕ)
      → insert_at (length xs + n) key (xs ++ ys) ≡ xs ++ insert_at n key ys
  insert_at-right [] ys key n = let none_before : 0 + n ≡ n = omega arith in rw none_before refl
  insert_at-right (x ∷ xs) ys key n =
      let up : suc (length xs) + n ≡ suc (length xs + n) = omega arith in
      rw up (ap (◌∷◌ x) (insert_at-right xs ys key n))

  insert_at-left :
      (to : ℕ) (xs ys : List K) (key : K)
      → to ≤ length xs
      → insert_at to key (xs ++ ys) ≡ take to xs ++ key ∷ drop to xs ++ ys
  insert_at-left zero xs ys key h = refl
  insert_at-left (suc to) [] ys key h = absurd (omega arith)
  insert_at-left (suc to) (x ∷ xs) ys key h = ap (◌∷◌ x) (insert_at-left to xs ys key (omega arith))

  -- `rotate` lifts the key at `from` out, and sets it down so that it stands at `to`.
  pub rotate-insert_at :
      (xs ys : List K) (key : K) (to : ℕ)
      → to ≤ length xs + length ys
      → rotate (xs ++ key ∷ ys) (length xs) to ≡ some (insert_at to key (xs ++ ys))
  unfolding rotate
  rotate-insert_at xs ys key to h =
      let inside : ltb to (length (xs ++ key ∷ ys)) ≡ true =
        ground (arith, length-append xs (key ∷ ys)) in
      elim (Bool-cases (ltb (length xs) to)) [
        | inl up ↦
            rw (rotate, get_elem?-append xs ys key, inside, up)
              (let n = to - length xs in
                let there : to ≡ length xs + n = omega (arith, ltb→lt (length xs) to up) in
                ap some (
                  subst
                    (λ t.
                      set
                        (take (length xs) (xs ++ key ∷ ys)
                          ++ take n (drop (suc (length xs)) (xs ++ key ∷ ys))
                          ++ drop t (xs ++ key ∷ ys))
                        t key
                      ≡ xs ++ insert_at n key ys)
                    (sym there) (rotated_up xs ys key n (omega arith))
                  ∙ sym (insert_at-right xs ys key n)
                  ∙ ap (λ t. insert_at t key (xs ++ ys)) (sym there)))
        | inr down ↦
            rw (rotate, get_elem?-append xs ys key, inside, down)
              (let before : to ≤ length xs = ground arith in
                ap some
                  (rotated_down to xs ys key before ∙ sym (insert_at-left to xs ys key before)))
      ]
