-- ===== src/Topic/Reads.antt =====
-- queue.go, `TopicCell`: what `ReadStream` returns.
use lazily_go.Base.{
  ◌-◌, ◌∙◌, ◌≡◌, ◌≢◌, ◌≤◌, Bool-cases, Comparable, List, Option, Option-cases, ap, arith, drop, inl,
  inr, length, ltb, none, refl, some, some_inj, sym, ℕ_comparable, bool_comparable,
  option_comparable,
}
use lazily_go.Topic.{
  TopicCell, TopicRead, TopicSubscription, ensure_reader, get_reader, keep_read, read_found,
  read_stream, read_untracked, reader, subscription,
}
use lazily_go.Topic.Log.{IsTopic, cache-IsTopic, ensure_reader-IsTopic, tail_offset-IsTopic, view}
use lazily_go.Topic.Scan.{drop-drop, base_offset-ensure_found, subscription-ensure_found}

module _ {ℓ} {I T : Type ℓ} ⦃c : Comparable I⦄ where
  -- What a reader computes is what the subscriber sees of the log.
  pub read_found-view :
      (full : List T) (t : TopicCell I T) (found : Option TopicSubscription) (r : TopicRead T)
      → IsTopic full t
      → read_found t found ≡ some r
      → r ≡ view full found
  unfolding read_found
  read_found-view full t none r v e = sym (some_inj e)
  read_found-view full t (some s) r v e = elim (Bool-cases (ltb s.cursor t.base_offset)) [
    | inl behind ↦ ground arith
    | inr within ↦
        let same : drop (s.cursor - t.base_offset) t.elements ≡ drop s.cursor full =
          ap (drop _) v.retained ∙ drop-drop t.base_offset s.cursor full (ground arith) in
        ground (arith, same)
  ]

  -- What a reader gives: it keeps the topic, and is right when it does not panic.
  abbrev Gives : List T → TopicCell I T → I → TopicCell I T × Option (TopicRead T) → Type ℓ
  Gives full t id x =
      IsTopic full x.0 × ((r : TopicRead T) → x.1 ≡ some r → r ≡ view full (subscription t id))

  keep_read-Gives :
      (full : List T) (t : TopicCell I T) (id : I) (r : Option (TopicRead T))
      → IsTopic full t
      → read_untracked t id ≡ r
      → Gives full t id (keep_read t id r)
  unfolding keep_read read_untracked
  keep_read-Gives full t id none v e = (v, λ r h. cc)
  keep_read-Gives full t id (some x) v e =
      let right = read_found-view full t (subscription t id) x v e in
      (
        cache-IsTopic full t id (some x) v (λ y h. sym (some_inj h) ∙ right),
        λ y h. sym (some_inj h) ∙ right,
      )

  get_reader-Gives :
      (full : List T) (t : TopicCell I T) (id : I) (cached : Option (Option (TopicRead T)))
      → IsTopic full t
      → reader t id ≡ cached
      → Gives full t id (get_reader t id cached)
  unfolding get_reader
  get_reader-Gives full t id (some (some r)) v e = (v, λ x h. sym (some_inj h) ∙ v.cached id r e)
  get_reader-Gives full t id (some none) v e =
      keep_read-Gives full t id (read_untracked t id) v refl
  get_reader-Gives full t id none v e = keep_read-Gives full t id (read_untracked t id) v refl

  -- A read keeps the log, and is what the subscriber sees of it.
  pub read_stream-Gives :
      (full : List T) (t : TopicCell I T) (id : I)
      → IsTopic full t
      → Gives full t id (read_stream t id)
  unfolding read_stream ensure_reader
  read_stream-Gives full t id v =
      let t' = ensure_reader t id in
      let (kept, right) =
        get_reader-Gives full t' id (reader t' id) (ensure_reader-IsTopic full t id v) refl in
      (kept, λ r h. right r h ∙ ap (view full) (subscription-ensure_found t id id (reader t id)))

  -- A read of a subscription whose cursor is in the retained log does not panic.
  read_found_total :
      (full : List T) (t : TopicCell I T) (s : TopicSubscription)
      → IsTopic full t
      → t.base_offset ≤ s.cursor
      → s.cursor ≤ length full
      → read_found t (some s) ≢ none
  unfolding read_found
  read_found_total full t s v low high = λ e. ground (arith, tail_offset-IsTopic full t v, e)

  kept_total :
      (t : TopicCell I T) (id : I) (r : Option (TopicRead T))
      → r ≢ none
      → (keep_read t id r).1 ≢ none
  unfolding keep_read
  kept_total t id none fine = fine
  kept_total t id (some x) fine = fine

  get_reader_total :
      (t : TopicCell I T) (id : I) (cached : Option (Option (TopicRead T)))
      → read_untracked t id ≢ none
      → (get_reader t id cached).1 ≢ none
  unfolding get_reader
  get_reader_total t id (some (some r)) fine = λ e. cc
  get_reader_total t id (some none) fine = kept_total t id (read_untracked t id) fine
  get_reader_total t id none fine = kept_total t id (read_untracked t id) fine

  -- A read of a subscription whose cursor is in the retained log returns what it sees of the log.
  pub read_stream_total :
      (full : List T) (t : TopicCell I T) (id : I) (s : TopicSubscription)
      → IsTopic full t
      → subscription t id ≡ some s
      → t.base_offset ≤ s.cursor
      → (read_stream t id).1 ≡ some (view full (some s))
  unfolding read_stream ensure_reader read_untracked
  read_stream_total full t id s v e low =
      let t' = ensure_reader t id in
      let v' = ensure_reader-IsTopic full t id v in
      let here = subscription-ensure_found t id id (reader t id) ∙ e in
      let fine =
        read_found_total full t' s v' (omega (arith, base_offset-ensure_found t id (reader t id)))
          (v.kept id s e).0 in
      elim (Option-cases (read_stream t id).1) [
        | inl panic ↦ absurd (get_reader_total t' id (reader t' id) (rw here fine) panic)
        | inr (r, h) ↦ h ∙ ap some ((read_stream-Gives full t id v).1 r h ∙ ap (view full) e)
      ]
