-- ===== src/Topic/Scan.antt =====
-- queue.go, `TopicCell`: what the loops over the subscriptions and the readers find.
use lazily_go.Base.{
  ◌&&◌, ◌+◌, ◌++◌, ◌-◌, ◌<◌, ◌∙◌, ◌∷◌, ◌≡◌, ◌≢◌, ◌≤◌, All, Bool-cases, Comparable, In, List, Option,
  [], ap, arith, drop, equal, if_elim, inl, inr, length, none, refl, some, some_inj, suc, sym, true,
  zero, ℕ, ℕ_comparable, bool_comparable, option_comparable,
}
use lazily_go.Topic.{
  TopicRead, TopicSubscription, connected_ids, drop_cached, durable, is_durable, lowest_durable,
  drop_one, TopicCell, ensure_found, subscription,
}
use lazily_go.Base.Assoc
use lazily_go.Base.Word.{int_lt, int_lt-small, zero_i64}

suc_add : (m k : ℕ) → suc m + k ≡ suc (m + k)
suc_add m k = omega arith

module _ {ℓ} {T : Type ℓ} where
  pub drop-append : (n : ℕ) (xs ys : List T) → n ≤ length xs → drop n (xs ++ ys) ≡ drop n xs ++ ys
  drop-append zero xs ys h = refl
  drop-append (suc n) [] ys h = absurd (omega arith)
  drop-append (suc n) (x ∷ xs) ys h = drop-append n xs ys (omega arith)

  drop_none : (n : ℕ) → drop {A = T} n [] ≡ []
  drop_none zero = refl
  drop_none (suc n) = refl

  drop-drop_sum : (k m : ℕ) (xs : List T) → drop k (drop m xs) ≡ drop (m + k) xs
  drop-drop_sum k zero xs = ap (λ i. drop i xs) (omega arith)
  drop-drop_sum k (suc m) [] = drop_none k ∙ sym (drop_none (suc m + k))
  drop-drop_sum k (suc m) (x ∷ xs) =
      drop-drop_sum k m xs ∙ sym (ap (λ i. drop i (x ∷ xs)) (suc_add m k))

  pub drop-drop : (m n : ℕ) (xs : List T) → m ≤ n → drop (n - m) (drop m xs) ≡ drop n xs
  drop-drop m n xs h = drop-drop_sum (n - m) m xs ∙ ap (λ i. drop i xs) (omega arith)

module _ {ℓ} {I T : Type ℓ} ⦃c : Comparable I⦄ where
  pub subscription-ensure_found :
      (t : TopicCell I T) (id j : I) (found : Option (Option (TopicRead T)))
      → subscription (ensure_found t id found) j ≡ subscription t j
  unfolding ensure_found
  subscription-ensure_found t id j none = refl
  subscription-ensure_found t id j (some _) = refl

  pub base_offset-ensure_found :
      (t : TopicCell I T) (id : I) (found : Option (Option (TopicRead T)))
      → (ensure_found t id found).base_offset ≡ t.base_offset
  unfolding ensure_found
  base_offset-ensure_found t id none = refl
  base_offset-ensure_found t id (some _) = refl

  pub elements-ensure_found :
      (t : TopicCell I T) (id : I) (found : Option (Option (TopicRead T)))
      → (ensure_found t id found).elements ≡ t.elements
  unfolding ensure_found
  elements-ensure_found t id none = refl
  elements-ensure_found t id (some _) = refl

  drop_one_keeps :
      (ms : List (I × Option (TopicRead T))) (id j : I) (r : TopicRead T)
      → Assoc.get j (drop_one ms id) ≡ some (some r)
      → (Assoc.get j ms ≡ some (some r)) × (id ≢ j)
  unfolding drop_one
  drop_one_keeps ms id j r e = go (Assoc.get id ms) refl e
    where
      go :
          (found : Option (Option (TopicRead T)))
          → Assoc.get id ms ≡ found
          → Assoc.get j (elim found [ none ↦ ms | some _ ↦ Assoc.put id none ms ]) ≡ some (some r)
          → (Assoc.get j ms ≡ some (some r)) × (id ≢ j)
      go none f h = (h, λ same. absurd (cc))
      go (some v) f h =
          let got = sym (Assoc.get-put id j none ms) ∙ h in
          (ground (arith, c.eq_iff id j), ground (arith, c.eq_iff id j))

  -- A reader that is still cached was cached before, and is none of those that were told.
  pub drop_cached_keeps :
      (ms : List (I × Option (TopicRead T))) (ids : List I) (j : I) (r : TopicRead T)
      → Assoc.get j (drop_cached ms ids) ≡ some (some r)
      → (Assoc.get j ms ≡ some (some r)) × All (λ id. id ≢ j) ids
  unfolding drop_cached
  drop_cached_keeps ms [] j r e = (e, tt)
  drop_cached_keeps ms (id ∷ ids) j r e =
      let (later, others) = drop_cached_keeps (drop_one ms id) ids j r e in
      let (here, other) = drop_one_keeps ms id j r later in (here, (other, others))

module _ {ℓ} {I : Type ℓ} ⦃c : Comparable I⦄ where
  pub In-connected_ids :
      (subs : List (I × TopicSubscription)) (id : I) (sub : TopicSubscription)
      → Assoc.get id subs ≡ some sub
      → sub.connected ≡ true
      → In id (connected_ids subs)
  unfolding connected_ids Assoc.get
  In-connected_ids [] id sub e on = cc
  In-connected_ids ((j, s) ∷ subs) id sub e on = elim (Bool-cases (equal j id)) [
    | inl same ↦
        if_elim (In id) s.connected (λ _. inl ((c.eq_iff j id).0 same))
          (λ off. absurd (ground arith))
    | inr other ↦
        let later = In-connected_ids subs id sub (rw (other, Assoc.get) at e) on in
        if_elim (In id) s.connected (λ _. inr later) (λ _. later)
  ]

  -- No cursor is negative.
  abbrev pub InRange : List (I × TopicSubscription) → Type 0
  InRange [] = Unit
  InRange ((j, s) ∷ subs) = (s.cursor < zero_i64) × InRange subs

  pub put-InRange :
      (id : I) (sub : TopicSubscription) (subs : List (I × TopicSubscription))
      → sub.cursor < zero_i64
      → InRange subs
      → InRange (Assoc.put id sub subs)
  unfolding Assoc.put
  put-InRange id sub [] h r = (h, tt)
  put-InRange id sub ((j, s) ∷ subs) h r =
      if_elim InRange (equal j id) (λ _. (h, r.1)) (λ _. (r.0, put-InRange id sub subs h r.1))

  pub delete-InRange :
      (id : I) (subs : List (I × TopicSubscription)) → InRange subs → InRange (Assoc.delete id subs)
  unfolding Assoc.delete
  delete-InRange id [] r = tt
  delete-InRange id ((j, s) ∷ subs) r =
      if_elim InRange (equal j id) (λ _. delete-InRange id subs r.1)
        (λ _. (r.0, delete-InRange id subs r.1))

  pub lowest_durable_le :
      (n : ℕ) (subs : List (I × TopicSubscription))
      → n < zero_i64
      → InRange subs
      → lowest_durable n subs ≤ n
  unfolding lowest_durable
  lowest_durable_le n [] small r = omega arith
  lowest_durable_le n ((j, s) ∷ subs) small r =
      if_elim (λ k. lowest_durable k subs ≤ n) (is_durable s.durability && int_lt s.cursor n)
        (λ low.
          ground
            (arith, int_lt-small s.cursor n r.0 small, lowest_durable_le s.cursor subs r.0 r.1))
        (λ _. lowest_durable_le n subs small r.1)

  pub lowest_durable_bound :
      (subs : List (I × TopicSubscription)) (n : ℕ) (id : I) (sub : TopicSubscription)
      → Assoc.get id subs ≡ some sub
      → sub.durability ≡ durable
      → n < zero_i64
      → InRange subs
      → lowest_durable n subs ≤ sub.cursor
  unfolding lowest_durable Assoc.get
  lowest_durable_bound [] n id sub e d small r = cc
  lowest_durable_bound ((j, s) ∷ subs) n id sub e d small r = elim (Bool-cases (equal j id)) [
    | inl same ↦
        let here : s ≡ sub = some_inj (rw (same, Assoc.get) at e) in
        if_elim (λ k. lowest_durable k subs ≤ sub.cursor)
          (is_durable s.durability && int_lt s.cursor n)
          (λ low. ground (arith, lowest_durable_le s.cursor subs r.0 r.1))
          (λ high.
            ground (arith, int_lt-small s.cursor n r.0 small, lowest_durable_le n subs small r.1))
    | inr other ↦
        let later : Assoc.get id subs ≡ some sub = rw (other, Assoc.get) at e in
        if_elim (λ k. lowest_durable k subs ≤ sub.cursor)
          (is_durable s.durability && int_lt s.cursor n)
          (λ _. lowest_durable_bound subs s.cursor id sub later d r.0 r.1)
          (λ _. lowest_durable_bound subs n id sub later d small r.1)
  ]
