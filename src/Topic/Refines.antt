-- ===== src/Topic/Refines.antt =====
-- queue.go, `TopicCell`: runs of calls, and the log that they publish.
use mathlib.Core.List.{append-nil, append_assoc}
use lazily_go.Base.{
  ◌+◌, ◌++◌, ◌<◌, ◌∷◌, ◌≡◌, ◌≤◌, Comparable, List, [], arith, inl, inr, length, length-append, refl,
  some, subst, sym, ℕ, ℕ_comparable, bool_comparable, option_comparable,
}
use lazily_go.Topic.{
  TopicCell, TopicDurability, TopicRead, TopicSubscription, advance, disconnect, durable, gc,
  new_topic_cell, publish, read_stream, reconnect, subscribe, subscription,
}
use lazily_go.Topic.Log.{IsTopic, tail_offset-IsTopic, view}
use lazily_go.Base.Word.{zero_i64}
use lazily_go.Topic.Steps.{
  Fits, advance-IsTopic, disconnect-IsTopic, gc-IsTopic, publish-IsTopic, reconnect-IsTopic,
  subscribe-IsTopic,
}
use lazily_go.Topic.Reads.{read_stream-Gives, read_stream_total}
use lazily_go.Base.Assoc

-- The calls on a topic.
pub data TopicOp {ℓ} (I T : Type ℓ) : Type ℓ where
  subscribes : I → TopicDurability → TopicOp I T
  reconnects disconnects reads : I → TopicOp I T
  publishes : T → TopicOp I T
  advances : I → ℕ → TopicOp I T
  collects : TopicOp I T

module _ {ℓ} {I T : Type ℓ} where
  -- The log that the calls publish.
  unfoldable pub published : List (TopicOp I T) → List T
  published [] = []
  published (publishes value ∷ ops) = value ∷ published ops
  published (subscribes id d ∷ ops) = published ops
  published (reconnects id ∷ ops) = published ops
  published (disconnects id ∷ ops) = published ops
  published (reads id ∷ ops) = published ops
  published (advances id count ∷ ops) = published ops
  published (collects ∷ ops) = published ops

  -- Every advance has a count that fits a log of this length.
  abbrev pub Counted : ℕ → List (TopicOp I T) → Type 0
  Counted n [] = Unit
  Counted n (advances id count ∷ ops) = Fits n count × Counted n ops
  Counted n (publishes value ∷ ops) = Counted n ops
  Counted n (subscribes id d ∷ ops) = Counted n ops
  Counted n (reconnects id ∷ ops) = Counted n ops
  Counted n (disconnects id ∷ ops) = Counted n ops
  Counted n (reads id ∷ ops) = Counted n ops
  Counted n (collects ∷ ops) = Counted n ops

Fits-smaller : (m n count : ℕ) → m ≤ n → Fits n count → Fits m count
Fits-smaller m n count h (inl negative) = inl negative
Fits-smaller m n count h (inr fit) = inr (omega (arith, h, fit))

module _ {ℓ} {I T : Type ℓ} ⦃c : Comparable I⦄ where
  pub topic_run : TopicCell I T → List (TopicOp I T) → TopicCell I T
  topic_run t [] = t
  topic_run t (publishes value ∷ ops) = topic_run (publish t value).0 ops
  topic_run t (subscribes id d ∷ ops) = topic_run (subscribe t id d).0 ops
  topic_run t (reconnects id ∷ ops) = topic_run (reconnect t id).0 ops
  topic_run t (disconnects id ∷ ops) = topic_run (disconnect t id) ops
  topic_run t (reads id ∷ ops) = topic_run (read_stream t id).0 ops
  topic_run t (advances id count ∷ ops) = topic_run (advance t id count).0 ops
  topic_run t (collects ∷ ops) = topic_run (gc t).0 ops

  topic_run-IsTopic :
      (full : List T) (t : TopicCell I T) (ops : List (TopicOp I T)) (n : ℕ)
      → length full + length (published ops) ≤ n
      → n < zero_i64
      → Counted n ops
      → IsTopic full t
      → IsTopic (full ++ published ops) (topic_run t ops)
  unfolding topic_run published
  topic_run-IsTopic full t [] n len small fits v =
      subst (λ xs. IsTopic xs t) (sym (append-nil full)) v
  topic_run-IsTopic full t (publishes value ∷ ops) n len small fits v =
      subst (λ xs. IsTopic xs (topic_run (publish t value).0 ops))
        (append_assoc full (value ∷ []) (published ops))
        (topic_run-IsTopic (full ++ value ∷ []) (publish t value).0 ops n
          (omega (arith, len, length-append full (value ∷ []))) small fits
          (publish-IsTopic full t value (omega (arith, len, small)) v))
  topic_run-IsTopic full t (subscribes id d ∷ ops) n len small fits v =
      topic_run-IsTopic full (subscribe t id d).0 ops n len small fits
        (subscribe-IsTopic full t id d v)
  topic_run-IsTopic full t (reconnects id ∷ ops) n len small fits v =
      topic_run-IsTopic full (reconnect t id).0 ops n len small fits (reconnect-IsTopic full t id v)
  topic_run-IsTopic full t (disconnects id ∷ ops) n len small fits v =
      topic_run-IsTopic full (disconnect t id) ops n len small fits (disconnect-IsTopic full t id v)
  topic_run-IsTopic full t (reads id ∷ ops) n len small fits v =
      topic_run-IsTopic full (read_stream t id).0 ops n len small fits
        (read_stream-Gives full t id v).0
  topic_run-IsTopic full t (advances id count ∷ ops) n len small fits v =
      topic_run-IsTopic full (advance t id count).0 ops n len small fits.1 (
        advance-IsTopic full t id count
          (Fits-smaller (length full) n count (omega (arith, len)) fits.0) v)
  topic_run-IsTopic full t (collects ∷ ops) n len small fits v =
      topic_run-IsTopic full (gc t).0 ops n len small fits (gc-IsTopic full t v)

  new_topic_cell-IsTopic : IsTopic [] (new_topic_cell {I = I} {T = T})
  unfolding new_topic_cell Assoc.get
  new_topic_cell-IsTopic = record {
    retained = refl;
    base_le = omega arith;
    small = omega arith;
    in_range = tt;
    kept = λ id s e. cc;
    cached = λ id r e. cc;
  }

  pub history-IsTopic :
      (ops : List (TopicOp I T))
      → length (published ops) < zero_i64
      → Counted (length (published ops)) ops
      → IsTopic (published ops) (topic_run new_topic_cell ops)
  history-IsTopic ops small fits =
      topic_run-IsTopic [] new_topic_cell ops (length (published ops)) (omega arith) small fits
        new_topic_cell-IsTopic

  -- After calls on a new topic that publish fewer values than 2^63, and in which each count of an advance
  -- is negative or stays below 2^63 when the number of published values is added: whatever was
  -- collected and whatever the readers have cached, a read that returns gives the subscriber the whole
  -- log of published values from its cursor on, a read by a durable subscriber does return, and the
  -- next value is published at the length of that log.
  pub topic_run-reads :
      (ops : List (TopicOp I T)) (id : I)
      → length (published ops) < zero_i64
      → Counted (length (published ops)) ops
      → ((r : TopicRead T)
          → (read_stream (topic_run new_topic_cell ops) id).1 ≡ some r
          → r ≡ view (published ops) (subscription (topic_run new_topic_cell ops) id))
        × ((s : TopicSubscription)
            → subscription (topic_run new_topic_cell ops) id ≡ some s
            → s.durability ≡ durable
            → (read_stream (topic_run new_topic_cell ops) id).1
              ≡ some (view (published ops) (some s)))
        × ((value : T) → (publish (topic_run new_topic_cell ops) value).1 ≡ length (published ops))
  unfolding publish
  topic_run-reads ops id small fits =
      let v = history-IsTopic ops small fits in
      let t = topic_run new_topic_cell ops in
      (
        (read_stream-Gives (published ops) t id v).1,
        λ s e d. read_stream_total (published ops) t id s v e ((v.kept id s e).1 d),
        λ value. tail_offset-IsTopic (published ops) t v,
      )
