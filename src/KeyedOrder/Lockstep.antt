-- ===== src/KeyedOrder/Lockstep.antt =====
-- keyed_order.go: the entries against the order.
use mathlib.Core.List.{append-nil}
use lazily_go.Base.{
  ◌+◌, ◌++◌, ◌-◌, if◌then◌else◌, ◌↔◌, ◌∙◌, ◌∷◌, ◌≡◌, ◌≢◌, ◌≤◌, ◌⊎◌, All, All-of_In, All_at,
  Bool-cases, Comparable, In, List, Option-cases, [], ap, arith, drop, equal, inl, inr, leb, length,
  length-append, ltb, refl, some, some_inj, subst, suc, sym, take, zero, ℕ, ℕ_comparable,
  bool_comparable, option_comparable,
}
use lazily_go.KeyedOrder.{
  position_from, KeyedOrder, MapMove, clamped, missing, move_to, position, insert_key, int_of,
  move_after, move_before, move_from, remove, without_key,
}
use lazily_go.KeyedOrder.Moves.{Lacks, move_from-Lands}
use lazily_go.KeyedOrder.Rotate.{insert_at}
use lazily_go.Base.Assoc

All-lift {ℓ κ} :
    {A : Type ℓ} (P : A → Type κ) (xs ys : List A) (k : A)
    → All P (xs ++ k ∷ ys)
    → P k × All P (xs ++ ys)
All-lift P [] ys k h = h
All-lift P (x ∷ xs) ys k h = let (p, rest) = All-lift P xs ys k h.1 in (p, (h.0, rest))

All-put {ℓ κ} :
    {A : Type ℓ} (P : A → Type κ) (xs ys : List A) (k : A)
    → P k
    → All P (xs ++ ys)
    → All P (xs ++ k ∷ ys)
All-put P [] ys k p h = (p, h)
All-put P (x ∷ xs) ys k p h = (h.0, All-put P xs ys k p h.1)

module _ {ℓ} {K : Type ℓ} ⦃c : Comparable K⦄ where
  -- A key stands at most once in the list.
  abbrev pub NoRepeat : List K → Type ℓ
  NoRepeat [] = Unit
  NoRepeat (x ∷ xs) = Lacks x xs × NoRepeat xs

  NoRepeat-lift :
      (xs ys : List K) (key : K)
      → NoRepeat (xs ++ key ∷ ys)
      → Lacks key (xs ++ ys) × NoRepeat (xs ++ ys)
  NoRepeat-lift [] ys key h = (h.0, h.1)
  NoRepeat-lift (x ∷ xs) ys key (lacks, h) =
      let (l, n) = NoRepeat-lift xs ys key h in
      let (apart, rest) = All-lift (λ z. z ≢ x) xs ys key lacks in
      (((λ e. apart (sym e)), l), (rest, n))

  NoRepeat-put :
      (xs ys : List K) (key : K)
      → Lacks key (xs ++ ys)
      → NoRepeat (xs ++ ys)
      → NoRepeat (xs ++ key ∷ ys)
  NoRepeat-put [] ys key l n = (l, n)
  NoRepeat-put (x ∷ xs) ys key l (lacks, n) =
      (All-put (λ z. z ≢ x) xs ys key (λ e. l.0 (sym e)) lacks, NoRepeat-put xs ys key l.1 n)

  In-middle : (a key : K) (xs ys : List K) → In a (xs ++ key ∷ ys) ↔ ((key ≡ a) ⊎ In a (xs ++ ys))
  In-middle a key [] ys = (λ h. h, λ h. h)
  In-middle a key (x ∷ xs) ys = grind (arith, In-middle a key xs ys)

  take-drop : (n : ℕ) (xs : List K) → take n xs ++ drop n xs ≡ xs
  take-drop zero xs = refl
  take-drop (suc n) [] = refl
  take-drop (suc n) (x ∷ xs) = ap (◌∷◌ x) (take-drop n xs)

  Lacks-of_not_In : (key : K) (xs : List K) → (In key xs → ⊥) → Lacks key xs
  Lacks-of_not_In key xs gone =
      All-of_In (λ x. x ≢ key) xs (λ a i e. gone (subst (λ z. In z xs) e i))

  In-splits :
      (key : K) (order : List K)
      → In key order
      → (xs : List K) × (ys : List K) × (order ≡ xs ++ key ∷ ys)
        × (without_key key order ≡ xs ++ ys)
  unfolding without_key
  In-splits key [] i = elim i [ ]
  In-splits key (x ∷ order) i = elim (Bool-cases (equal x key)) [
    | inl here ↦ ([], order, ap (λ z. z ∷ order) ((c.eq_iff x key).0 here), rw here refl)
    | inr other ↦ elim i [
      | inl e ↦ absurd (cc ((c.eq_iff x key).1 e, other))
      | inr later ↦
          let (xs, ys, e, left) = In-splits key order later in
          (x ∷ xs, ys, ap (◌∷◌ x) e, rw other (ap (◌∷◌ x) left))
    ]
  ]

  -- Where a key is found, the list splits.
  position_from-splits :
      (i n : ℕ) (key : K) (order : List K)
      → position_from i key order ≡ some n
      → (xs : List K) × (ys : List K) × (order ≡ xs ++ key ∷ ys)
        × Lacks key xs
        × (n ≡ i + length xs)
  unfolding position_from
  position_from-splits i n key [] found = absurd cc
  position_from-splits i n key (x ∷ order) found = elim (Bool-cases (equal x key)) [
    | inl here ↦ (
      [],
      order,
      ap (λ z. z ∷ order) ((c.eq_iff x key).0 here),
      tt,
      sym (some_inj (rw here at found)) ∙ omega arith,
    )
    | inr other ↦
        let (xs, ys, e, l, at) = position_from-splits (i + 1) n key order (rw other at found) in
        (x ∷ xs, ys, ap (◌∷◌ x) e, (λ e. absurd (cc ((c.eq_iff x key).1 e, other)), l), omega arith)
  ]

module _ {ℓ κ} {K : Type ℓ} {H : Type κ} ⦃c : Comparable K⦄ where
  -- Every key of the entries stands in the order, exactly once, and nothing else does.
  pub record Lockstep (k : KeyedOrder K H) : Type ℓ where
    pub once : NoRepeat k.order
    pub same : (key : K) → In key k.order ↔ In key (Assoc.keys k.entries)

  Lockstep-insert_at :
      (k : KeyedOrder K H) (xs ys : List K) (key : K) (to : ℕ)
      → k.order ≡ xs ++ key ∷ ys
      → Lockstep k
      → Lockstep (record k { order = insert_at to key (xs ++ ys) })
  Lockstep-insert_at k xs ys key to e h =
      let (l, n) = NoRepeat-lift xs ys key (subst NoRepeat e h.once) in
      let zs = xs ++ ys in
      let whole : take to zs ++ drop to zs ≡ zs = take-drop to zs in
      record {
        once =
            NoRepeat-put (take to zs) (drop to zs) key (subst (Lacks key) (sym whole) l)
              (subst NoRepeat (sym whole) n);
        same = λ a.
            let there : In a (insert_at to key zs) ↔ ((key ≡ a) ⊎ In a zs) =
              subst (λ t. In a (insert_at to key zs) ↔ ((key ≡ a) ⊎ In a t)) whole
                (In-middle a key (take to zs) (drop to zs)) in
            let here : In a k.order ↔ ((key ≡ a) ⊎ In a zs) =
              subst (λ o. In a o ↔ ((key ≡ a) ⊎ In a zs)) (sym e) (In-middle a key xs ys) in
            (λ i. (h.same a).0 (here.1 (there.0 i)), λ i. there.1 (here.0 ((h.same a).1 i)));
      }

  -- A move leaves the order as it was, or lifts its key and puts it elsewhere.
  pub move_to-Lockstep :
      (k : KeyedOrder K H) (key : K) (index : ℕ)
      → Lockstep k
      → (k' : KeyedOrder K H) × (m : MapMove) × (move_to k key index ≡ some (k', m)) × Lockstep k'
  unfolding move_to position
  move_to-Lockstep k key index h = elim (Option-cases (position k key)) [
    | inl gone ↦ (k, missing, rw (move_to, gone) refl, h)
    | inr (from, found) ↦
        let (xs, ys, e, l, at) = position_from-splits 0 from key k.order found in
        let here : from ≡ length xs = omega arith in
        let low : clamped index (length k.order) ≤ length xs + length ys =
          ground (arith, ap length e ∙ length-append xs (key ∷ ys)) in
        let (m, lands) = move_from-Lands k xs ys key (clamped index (length k.order)) e low in
        (
          record k { order = insert_at (clamped index (length k.order)) key (xs ++ ys) },
          m,
          rw (move_to, found)
              (ap (λ f. move_from k f (clamped index (length k.order))) here ∙ lands),
          Lockstep-insert_at k xs ys key (clamped index (length k.order)) e h,
        )
  ]

  pub move_before-Lockstep :
      (k : KeyedOrder K H) (key anchor : K)
      → Lockstep k
      → (k' : KeyedOrder K H) × (m : MapMove) × (move_before k key anchor ≡ some (k', m))
        × Lockstep k'
  unfolding move_before
  move_before-Lockstep k key anchor h = elim (Option-cases (position k anchor)) [
    | inl gone ↦ (k, missing, rw (move_before, gone) refl, h)
    | inr (at, found) ↦ elim (Option-cases (position k key)) [
      | inl gone ↦ (k, missing, rw (move_before, found, gone) refl, h)
      | inr (from, found') ↦
          let (k', m, e, h') =
            move_to-Lockstep k key (int_of (if ltb from at then at - 1 else at)) h in
          (k', m, rw (move_before, found, found') e, h')
    ]
  ]

  pub move_after-Lockstep :
      (k : KeyedOrder K H) (key anchor : K)
      → Lockstep k
      → (k' : KeyedOrder K H) × (m : MapMove) × (move_after k key anchor ≡ some (k', m))
        × Lockstep k'
  unfolding move_after
  move_after-Lockstep k key anchor h = elim (Option-cases (position k anchor)) [
    | inl gone ↦ (k, missing, rw (move_after, gone) refl, h)
    | inr (at, found) ↦ elim (Option-cases (position k key)) [
      | inl gone ↦ (k, missing, rw (move_after, found, gone) refl, h)
      | inr (from, found') ↦
          let (k', m, e, h') =
            move_to-Lockstep k key (int_of (if leb from at then at else at + 1)) h in
          (k', m, rw (move_after, found, found') e, h')
    ]
  ]

  pub insert_key-Lockstep :
      (k : KeyedOrder K H) (key : K) (handle : H)
      → Lockstep k
      → Lockstep (insert_key k key handle).0
  unfolding insert_key
  insert_key-Lockstep k key handle h = elim (Option-cases (Assoc.get key k.entries)) [
    | inl cold ↦
        rw (insert_key, cold)
          (let gone : Lacks key k.order = Lacks-of_not_In key k.order (λ i.
              let (v, found) = Assoc.get_of_keys key k.entries ((h.same key).0 i) in
              absurd (cc (found, cold))) in
            let whole : k.order ++ [] ≡ k.order = append-nil k.order in
            record {
              once =
                  NoRepeat-put k.order [] key (subst (Lacks key) (sym whole) gone)
                    (subst NoRepeat (sym whole) h.once);
              same = λ a.
                  let here : In a (k.order ++ key ∷ []) ↔ ((key ≡ a) ⊎ In a k.order) =
                    subst (λ o. In a (k.order ++ key ∷ []) ↔ ((key ≡ a) ⊎ In a o)) whole
                      (In-middle a key k.order []) in
                  grind (arith, here, h.same a, Assoc.keys-put_iff key a handle k.entries);
            })
    | inr (old, warm) ↦ rw (insert_key, warm) h
  ]

  pub remove-Lockstep : (k : KeyedOrder K H) (key : K) → Lockstep k → Lockstep (remove k key).0
  unfolding remove
  remove-Lockstep k key h = elim (Option-cases (Assoc.get key k.entries)) [
    | inl gone ↦ rw (remove, gone) h
    | inr (old, there) ↦
        rw (remove, there)
          (let (xs, ys, e, left) =
              In-splits key k.order ((h.same key).1 (Assoc.keys_of_get key old k.entries there)) in
            let (gone, rest) = NoRepeat-lift xs ys key (subst NoRepeat e h.once) in
            rw left (record {
              once = rest;
              same = λ a.
                  let here : In a k.order ↔ ((key ≡ a) ⊎ In a (xs ++ ys)) =
                    subst (λ o. In a o ↔ ((key ≡ a) ⊎ In a (xs ++ ys))) (sym e)
                      (In-middle a key xs ys) in
                  let apart : In a (xs ++ ys) → key ≢ a =
                    λ i same. All_at (λ x. x ≢ key) (xs ++ ys) a gone i (sym same) in
                  grind (arith, here, apart, h.same a, Assoc.keys-delete_iff key a k.entries);
            }))
  ]
