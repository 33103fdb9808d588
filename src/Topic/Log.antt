-- ===== src/Topic/Log.antt =====
-- queue.go, `TopicCell`: the log that a topic stands for, and the calls that write one subscription.
use lazily_go.Base.{
  ◌<◌, if◌then◌else◌, ◌∙◌, ◌∷◌, ◌≡◌, ◌≤◌, Bool-cases, Comparable, List, Option, [], arith, drop,
  equal, false, if_elim, inl, inr, length, length-drop, none, refl, some, some_inj, subst, sym,
  true, ℕ, ℕ_comparable, bool_comparable, option_comparable,
}
use lazily_go.Topic.{
  TopicCell, TopicRead, TopicSubscription, durable, reader, subscription, ensure_reader,
  invalidate_ids, put_subscription, ensure_found, tail_offset,
}
use lazily_go.Topic.Scan.{drop_cached_keeps, InRange, delete-InRange, put-InRange}
use lazily_go.Base.Assoc
use lazily_go.Base.Word.{zero_i64}

-- What a subscriber sees of the whole log.
abbrev pub view {ℓ} : {T : Type ℓ} → List T → Option TopicSubscription → TopicRead T
view full none = record { elements = []; exists_ = false }
view full (some sub) =
    if sub.connected
    then record { elements = drop sub.cursor full; exists_ = true }
    else record { elements = []; exists_ = false }

-- A subscription's cursor is in the log, and a durable one's is in the retained part.
abbrev pub InLog : ℕ → ℕ → TopicSubscription → Type 0
InLog base tail sub = (sub.cursor ≤ tail) × (sub.durability ≡ durable → base ≤ sub.cursor)

module _ {ℓ} {I T : Type ℓ} ⦃c : Comparable I⦄ where
  -- The topic stands for this log.
  pub record IsTopic (full : List T) (t : TopicCell I T) : Type ℓ where
    pub retained : t.elements ≡ drop t.base_offset full
    pub base_le : t.base_offset ≤ length full
    pub small : length full < zero_i64
    pub in_range : InRange t.subscriptions
    pub kept :
        (id : I) (sub : TopicSubscription)
        → subscription t id ≡ some sub
        → InLog t.base_offset (length full) sub
    pub cached :
        (id : I) (r : TopicRead T) → reader t id ≡ some (some r) → r ≡ view full (subscription t id)

module _ {ℓ} {I T : Type ℓ} ⦃c : Comparable I⦄ where
  -- One subscription is written, and its reader told.
  pub put-IsTopic :
      (full : List T) (t : TopicCell I T) (id : I) (sub : TopicSubscription)
      → IsTopic full t
      → InLog t.base_offset (length full) sub
      → IsTopic full (invalidate_ids (put_subscription t id sub) (id ∷ []))
  put-IsTopic full t id sub v ok = record {
    retained = v.retained;
    base_le = v.base_le;
    small = v.small;
    in_range = put-InRange id sub t.subscriptions (omega (arith, ok.0, v.small)) v.in_range;
    kept = λ j s e.
        if_elim (λ found. found ≡ some s → InLog t.base_offset (length full) s) (equal id j)
          (λ _ here. subst (InLog t.base_offset (length full)) (some_inj here) ok)
          (λ _ here. v.kept j s here) (sym (Assoc.get-put id j sub t.subscriptions) ∙ e);
    cached = λ j r e.
        let (here, (other, _)) = drop_cached_keeps t.readers (id ∷ []) j r e in
        rw (Assoc.get-put id j sub t.subscriptions)
          (ground (arith, c.eq_iff id j, v.cached j r here));
  }

  -- A subscription goes, and its reader is told.
  pub delete-IsTopic :
      (full : List T) (t : TopicCell I T) (id : I)
      → IsTopic full t
      → IsTopic full
          (invalidate_ids (record t { subscriptions = Assoc.delete id t.subscriptions }) (id ∷ []))
  delete-IsTopic full t id v = record {
    retained = v.retained;
    base_le = v.base_le;
    small = v.small;
    in_range = delete-InRange id t.subscriptions v.in_range;
    kept = λ j s e. v.kept j s (ground (arith, sym (Assoc.get-delete id j t.subscriptions) ∙ e));
    cached = λ j r e.
        let (here, (other, _)) = drop_cached_keeps t.readers (id ∷ []) j r e in
        rw (Assoc.get-delete id j t.subscriptions)
          (ground (arith, c.eq_iff id j, v.cached j r here));
  }

  -- A reader caches a value that is right.
  pub cache-IsTopic :
      (full : List T) (t : TopicCell I T) (id : I) (r : Option (TopicRead T))
      → IsTopic full t
      → ((x : TopicRead T) → r ≡ some x → x ≡ view full (subscription t id))
      → IsTopic full (record t { readers = Assoc.put id r t.readers })
  cache-IsTopic full t id r v right = record {
    retained = v.retained;
    base_le = v.base_le;
    small = v.small;
    in_range = v.in_range;
    kept = v.kept;
    cached = λ j x e.
        let got = sym (Assoc.get-put id j r t.readers) ∙ e in
        elim (Bool-cases (equal id j)) [
          | inl same ↦ rw (← (c.eq_iff id j).0 same) (right x (ground arith))
          | inr other ↦ v.cached j x (ground arith)
        ];
  }

  pub ensure_reader-IsTopic :
      (full : List T) (t : TopicCell I T) (id : I)
      → IsTopic full t
      → IsTopic full (ensure_reader t id)
  unfolding ensure_reader
  ensure_reader-IsTopic full t id v = go (reader t id)
    where
      go : (found : Option (Option (TopicRead T))) → IsTopic full (ensure_found t id found)
      go none = cache-IsTopic full t id none v (λ x e. cc)
      go (some _) = v

  -- Tellings and lookups of readers do not see the subscriptions.
  pub ensure_reader-put_subscription :
      (t : TopicCell I T) (id : I) (sub : TopicSubscription)
      → ensure_reader (put_subscription t id sub) id ≡ put_subscription (ensure_reader t id) id sub
  unfolding ensure_reader
  ensure_reader-put_subscription t id sub = go (reader t id)
    where
      go :
          (found : Option (Option (TopicRead T)))
          → ensure_found (put_subscription t id sub) id found
            ≡ put_subscription (ensure_found t id found) id sub
      go none = refl
      go (some _) = refl

  pub tail_offset-IsTopic :
      (full : List T) (t : TopicCell I T) → IsTopic full t → tail_offset t ≡ length full
  unfolding tail_offset
  tail_offset-IsTopic full t v =
      rw v.retained (omega (arith, length-drop t.base_offset full, v.base_le))
