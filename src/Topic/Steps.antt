-- ===== src/Topic/Steps.antt =====
-- queue.go, `TopicCell`: each call, and the log that the topic stands for.
use lazily_go.Base.{
  ◌+◌, ◌++◌, ◌<◌, ◌==◌, ◌||◌, ◌∙◌, ◌∷◌, ◌≡◌, ◌≢◌, ◌≤◌, ◌⊎◌, All, All_at, Bool-cases, Comparable,
  List, Option, [], ap, arith, drop, false, if_elim, inl, inr, length, length-append, none, not,
  refl, some, subst, sym, true, ℕ, ℕ_comparable, bool_comparable, option_comparable,
}
use lazily_go.Topic.{
  TopicCell, TopicDurability, TopicSubscribeOutcome, TopicSubscription, advance, advance_found,
  connected_ids, disconnect, disconnect_found, ensure_reader, gc, invalidate_ids, is_durable,
  lowest_durable, publish, put_subscription, reconnect, reconnect_found, subscribe, subscribe_found,
  subscription, tail_offset,
}
use lazily_go.Topic.Log.{
  IsTopic, delete-IsTopic, ensure_reader-IsTopic, ensure_reader-put_subscription, put-IsTopic,
  tail_offset-IsTopic, view, InLog,
}
use lazily_go.Topic.Scan.{
  drop-append, drop-drop, drop_cached_keeps, lowest_durable_bound, lowest_durable_le,
  In-connected_ids,
}
use lazily_go.Base.Word.{int_lt-negative, add_u64, int_lt, int_lt-small, word_mod, zero_i64}

-- The count is negative, or leads from any cursor in the log to an `int`.
abbrev pub Fits : ℕ → ℕ → Type 0
Fits n count = (zero_i64 ≤ count) × (count < word_mod) ⊎ (count + n < zero_i64)

module _ {ℓ} {I T : Type ℓ} ⦃c : Comparable I⦄ where
  pub subscribe-IsTopic :
      (full : List T) (t : TopicCell I T) (id : I) (d : TopicDurability)
      → IsTopic full t
      → IsTopic full (subscribe t id d).0
  unfolding subscribe
  subscribe-IsTopic full t id d v = go (subscription t id) refl
    where
      sub : TopicSubscription
      sub = record { cursor = tail_offset t; durability = d; connected = true }

      fresh : IsTopic full (invalidate_ids (put_subscription (ensure_reader t id) id sub) (id ∷ []))
      fresh = put-IsTopic full (ensure_reader t id) id sub (ensure_reader-IsTopic full t id v) (
        omega (arith, tail_offset-IsTopic full t v),
        λ _.
            omega
              (arith, tail_offset-IsTopic full t v, (ensure_reader-IsTopic full t id v).base_le),
      )

      go :
          (found : Option TopicSubscription)
          → subscription t id ≡ found
          → IsTopic full (subscribe_found t id d found).0
      go none e =
          subst (λ x. IsTopic full (invalidate_ids x (id ∷ [])))
            (sym (ensure_reader-put_subscription t id sub)) fresh
      go (some s) e =
          if_elim (λ (x : TopicCell I T × Option TopicSubscribeOutcome). IsTopic full x.0)
            s.connected (λ _. v)
            (λ _.
              if_elim (λ (x : TopicCell I T × Option TopicSubscribeOutcome). IsTopic full x.0)
                (not (is_durable s.durability)) (λ _. v)
                (λ _. put-IsTopic full t id (record s { connected = true }) v (v.kept id s e)))

  pub reconnect-IsTopic :
      (full : List T) (t : TopicCell I T) (id : I)
      → IsTopic full t
      → IsTopic full (reconnect t id).0
  unfolding reconnect
  reconnect-IsTopic full t id v = go (subscription t id) refl
    where
      Ok : TopicCell I T × Option (Unit {0}) → Type ℓ
      Ok x = IsTopic full x.0

      go :
          (found : Option TopicSubscription)
          → subscription t id ≡ found
          → IsTopic full (reconnect_found t id found).0
      go none e = v
      go (some s) e =
          if_elim Ok (not (is_durable s.durability)) (λ _. v)
            (λ _.
              if_elim Ok (not s.connected)
                (λ _. put-IsTopic full t id (record s { connected = true }) v (v.kept id s e))
                (λ _. v))

  pub disconnect-IsTopic :
      (full : List T) (t : TopicCell I T) (id : I) → IsTopic full t → IsTopic full (disconnect t id)
  unfolding disconnect
  disconnect-IsTopic full t id v = go (subscription t id) refl
    where
      go :
          (found : Option TopicSubscription)
          → subscription t id ≡ found
          → IsTopic full (disconnect_found t id found)
      go none e = v
      go (some s) e =
          if_elim (IsTopic full) (not s.connected) (λ _. v)
            (λ _.
              if_elim (IsTopic full) (is_durable s.durability)
                (λ _. put-IsTopic full t id (record s { connected = false }) v (v.kept id s e))
                (λ _. delete-IsTopic full t id v))

  pub advance-IsTopic :
      (full : List T) (t : TopicCell I T) (id : I) (count : ℕ)
      → Fits (length full) count
      → IsTopic full t
      → IsTopic full (advance t id count).0
  unfolding advance
  advance-IsTopic full t id count fits v = go (subscription t id) refl
    where
      Ok : TopicCell I T × Option ℕ → Type ℓ
      Ok x = IsTopic full x.0

      in_log :
          (s : TopicSubscription)
          → subscription t id ≡ some s
          → int_lt count 0 ≡ false
          → int_lt (tail_offset t) (add_u64 s.cursor count) ≡ false
          → InLog t.base_offset (length full) (record s { cursor = add_u64 s.cursor count })
      in_log s e natural within =
          let (le, own) = v.kept id s e in
          let tail = tail_offset-IsTopic full t v in
          elim fits [
            | inl (low, high) ↦ absurd (cc (natural, int_lt-negative count low high))
            | inr fit ↦
                let sum : add_u64 s.cursor count ≡ s.cursor + count = omega arith in
                let inside : int_lt (tail_offset t) (s.cursor + count) ≡ false = rw sum at within in
                (
                  rw sum (
                      ground (
                        arith,
                        inside,
                        int_lt-small (tail_offset t) (s.cursor + count)
                            (omega (arith, tail, v.small)) (omega arith),
                      )),
                  λ d. rw sum (omega (arith, own d)),
                )
          ]

      go :
          (found : Option TopicSubscription)
          → subscription t id ≡ found
          → IsTopic full (advance_found t id count found).0
      go none e = v
      go (some s) e =
          if_elim Ok (int_lt count 0) (λ _. v)
            (λ natural.
              if_elim Ok (not s.connected || s.cursor == tail_offset t) (λ _. v)
                (λ _.
                  if_elim Ok (int_lt (tail_offset t) (add_u64 s.cursor count)) (λ _. v)
                    (λ within.
                      if_elim Ok (int_lt 0 count)
                        (λ _.
                          put-IsTopic full t id (record s { cursor = add_u64 s.cursor count }) v
                            (in_log s e natural within))
                        (λ _. v))))

  -- A published value is not seen by those who were not told.
  view-publish :
      (full : List T) (t : TopicCell I T) (value : T) (id : I)
      → All (λ told. told ≢ id) (connected_ids t.subscriptions)
      → (found : Option TopicSubscription) → subscription t id ≡ found
      → view full found ≡ view (full ++ value ∷ []) found
  view-publish full t value id told none e = refl
  view-publish full t value id told (some s) e = elim (Bool-cases s.connected) [
    | inl on ↦ absurd (
        All_at (λ a. a ≢ id) (connected_ids t.subscriptions) id told
          (In-connected_ids t.subscriptions id s e on) refl)
    | inr off ↦ rw off refl
  ]

  pub publish-IsTopic :
      (full : List T) (t : TopicCell I T) (value : T)
      → length full + 1 < zero_i64
      → IsTopic full t
      → IsTopic (full ++ value ∷ []) (publish t value).0
  unfolding publish
  publish-IsTopic full t value room v = record {
    retained =
        ap (λ xs. xs ++ value ∷ []) v.retained
        ∙ sym (drop-append t.base_offset full (value ∷ []) v.base_le);
    base_le = omega (arith, length-append full (value ∷ []), v.base_le);
    small = omega (arith, length-append full (value ∷ []), room);
    in_range = v.in_range;
    kept = λ id s e.
        let (le, own) = v.kept id s e in (omega (arith, length-append full (value ∷ [])), own);
    cached = λ id r e.
        let (here, told) = drop_cached_keeps t.readers (connected_ids t.subscriptions) id r e in
        v.cached id r here ∙ view-publish full t value id told (subscription t id) refl;
  }

  pub gc-IsTopic : (full : List T) (t : TopicCell I T) → IsTopic full t → IsTopic full (gc t).0
  unfolding gc
  gc-IsTopic full t v =
      let tail = tail_offset-IsTopic full t v in
      let small : tail_offset t < zero_i64 = omega (arith, tail, v.small) in
      let low = lowest_durable_le (tail_offset t) t.subscriptions small v.in_range in
      if_elim (λ (x : TopicCell I T × Option ℕ). IsTopic full x.0)
        (int_lt (lowest_durable (tail_offset t) t.subscriptions) t.base_offset) (λ _. v)
        (λ up. record {
          retained =
              ap (drop _) v.retained
              ∙ drop-drop t.base_offset _ full (
                  ground (
                    arith,
                    int_lt-small (lowest_durable (tail_offset t) t.subscriptions) t.base_offset
                        (omega (arith, low, small)) (omega (arith, v.base_le, v.small)),
                  ));
          base_le = omega (arith, tail, low);
          small = v.small;
          in_range = v.in_range;
          kept = λ id s e. (
            (v.kept id s e).0,
            λ d. lowest_durable_bound t.subscriptions (tail_offset t) id s e d small v.in_range,
          );
          cached = v.cached;
        })
