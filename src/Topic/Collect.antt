-- ===== src/Topic/Collect.antt =====
-- queue.go, `TopicCell.GC`: collection and reads.
use lazily_go.Base.{
  ◌<◌, ◌∙◌, ◌≡◌, ◌≤◌, Comparable, List, Option, arith, if_elim, none, refl, some, sym, true, ℕ,
  ℕ_comparable, bool_comparable, option_comparable,
}
use lazily_go.Base.Word.{int_lt, int_lt-small, zero_i64}
use lazily_go.Topic.{
  TopicCell, TopicSubscription, durable, ensure_found, ensure_reader, gc, get_reader, keep_read,
  lowest_durable, read_found, read_stream, read_untracked, reader, subscription, tail_offset,
}
use lazily_go.Topic.Log.{IsTopic}
use lazily_go.Topic.Steps.{gc-IsTopic}
use lazily_go.Topic.Reads.{read_stream_total}

module _ {ℓ} {I T : Type ℓ} ⦃c : Comparable I⦄ where
  -- A read below the retained log.
  cold_read :
      (t : TopicCell I T) (id : I) (s : TopicSubscription)
      → subscription t id ≡ some s
      → s.connected ≡ true
      → reader t id ≡ some none
      → s.cursor < t.base_offset
      → (read_stream t id).1 ≡ none
  unfolding read_stream ensure_reader ensure_found get_reader read_untracked read_found keep_read
  cold_read t id s e on cold behind = rw (cold, cold, e) (ground arith)

  -- Collection never changes what a durable subscriber reads, whatever it removes, in a topic that stands
  -- for a log of fewer than 2^63 values.
  pub read_stream-gc :
      (full : List T) (t : TopicCell I T) (id : I) (s : TopicSubscription)
      → IsTopic full t
      → subscription t id ≡ some s
      → s.durability ≡ durable
      → (read_stream (gc t).0 id).1 ≡ (read_stream t id).1
  unfolding gc
  read_stream-gc full t id s v e d =
      let v' = gc-IsTopic full t v in
      let e' : subscription (gc t).0 id ≡ some s =
        if_elim (λ (x : TopicCell I T × Option ℕ). subscription x.0 id ≡ some s)
          (int_lt (lowest_durable (tail_offset t) t.subscriptions) t.base_offset) (λ _. e)
          (λ _. e) in
      read_stream_total full (gc t).0 id s v' e' ((v'.kept id s e').1 d)
      ∙ sym (read_stream_total full t id s v e ((v.kept id s e).1 d))

  -- Collection looks at durable cursors only. Where the slowest of them is not negative, a connected
  -- ephemeral subscriber whose cursor lies below it, in the retained log, and whose reader holds no
  -- value, is left with a cursor below the retained log, and its next read panics.
  pub gc_strands :
      (t : TopicCell I T) (id : I) (s : TopicSubscription)
      → subscription t id ≡ some s
      → s.connected ≡ true
      → reader t id ≡ some none
      → t.base_offset ≤ s.cursor
      → s.cursor < lowest_durable (tail_offset t) t.subscriptions
      → lowest_durable (tail_offset t) t.subscriptions < zero_i64
      → ((gc t).0.base_offset ≡ lowest_durable (tail_offset t) t.subscriptions)
        × ((read_stream (gc t).0 id).1 ≡ none)
  unfolding gc
  gc_strands t id s e on cold low behind small =
      if_elim
        (λ (x : TopicCell I T × Option ℕ).
          (x.0.base_offset ≡ lowest_durable (tail_offset t) t.subscriptions)
          × ((read_stream x.0 id).1 ≡ none))
        (int_lt (lowest_durable (tail_offset t) t.subscriptions) t.base_offset)
        (λ under. absurd (
          ground (
            arith,
            int_lt-small (lowest_durable (tail_offset t) t.subscriptions) t.base_offset small
                (omega arith),
          )))
        (λ _. (refl, cold_read _ id s e on cold behind))
