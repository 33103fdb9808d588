-- ===== src/Topic/Tests.antt =====
-- A topic at concrete calls.
use lazily_go.Base.{
  ◌↔◌, ◌∷◌, ◌≡◌, List, [], arith, inl, inr, length, none, refl, some, true, ℕ, ℕ_comparable,
  bool_comparable, option_comparable,
}
use lazily_go.Topic.{
  TopicCell, TopicRead, TopicSubscription, durable, ephemeral, gc, lowest_durable, new_topic_cell,
  publish, read_stream, subscription, tail_offset,
}
use lazily_go.Topic.Log.{IsTopic, view}
use lazily_go.Topic.Refines.{
  TopicOp, advances, collects, disconnects, published, publishes, reads, reconnects, subscribes,
  topic_run, topic_run-reads,
}
use lazily_go.Topic.Collect.{gc_strands, read_stream-gc}
use lazily_go.Topic.Snapshot.{Acceptable, from_snapshot, from_snapshot-snapshot, from_snapshot_iff}
use lazily_go.Topic.Saved.{snapshot}
use lazily_go.Base.Assoc

abbrev calls : List (TopicOp ℕ ℕ)
calls =
    subscribes 1 durable
    ∷ subscribes 2 ephemeral
    ∷ publishes 7
    ∷ publishes 8
    ∷ reads 1
    ∷ advances 1 1
    ∷ collects
    ∷ disconnects 1
    ∷ publishes 9
    ∷ reconnects 1
    ∷ []

abbrev after : TopicCell ℕ ℕ
after = topic_run new_topic_cell calls

topic_run-reads_example :
    ((r : TopicRead ℕ)
      → (read_stream after 1).1 ≡ some r
      → r ≡ view (published calls) (subscription after 1))
    × ((s : TopicSubscription)
        → subscription after 1 ≡ some s
        → s.durability ≡ durable
        → (read_stream after 1).1 ≡ some (view (published calls) (some s)))
    × ((value : ℕ) → (publish after value).1 ≡ length (published calls))
unfolding published
topic_run-reads_example = topic_run-reads calls 1 (omega arith) (inr (omega arith), tt)

-- Two subscribers of three values, of which the first has read one.
abbrev busy : TopicCell ℕ ℕ
busy = record {
  base_offset = 0;
  elements = 7 ∷ 8 ∷ 9 ∷ [];
  subscriptions =
      (1, record { cursor = 1; durability = durable; connected = true })
      ∷ (2, record { cursor = 0; durability = ephemeral; connected = true })
      ∷ [];
  readers = (1, none) ∷ (2, none) ∷ [];
}

abbrev behind : TopicSubscription
behind = record { cursor = 0; durability = ephemeral; connected = true }

gc_strands_example :
    ((gc busy).0.base_offset ≡ lowest_durable (tail_offset busy) busy.subscriptions)
    × ((read_stream (gc busy).0 2).1 ≡ none)
unfolding Assoc.get lowest_durable tail_offset
gc_strands_example =
    gc_strands busy 2 behind refl refl refl (omega arith) (omega arith) (omega arith)

busy-Acceptable : Acceptable (snapshot busy)
unfolding snapshot
busy-Acceptable = (
  refl,
  ((omega arith, omega arith, inl refl), ((omega arith, omega arith, inr (refl, refl)), tt)),
)

from_snapshot-snapshot_example :
    (t' : TopicCell ℕ ℕ) × (from_snapshot (snapshot busy) ≡ some t')
    × (t'.base_offset ≡ 0)
    × (t'.elements ≡ busy.elements)
    × ((id : ℕ) → subscription t' id ≡ subscription busy id)
unfolding Assoc.get
from_snapshot-snapshot_example =
    from_snapshot-snapshot busy (refl, (refl, tt)) (omega arith) busy-Acceptable

from_snapshot_iff_example :
    ((t' : TopicCell ℕ ℕ) × (from_snapshot (snapshot busy) ≡ some t')) ↔ Acceptable (snapshot busy)
unfolding snapshot
from_snapshot_iff_example =
    from_snapshot_iff (snapshot busy) (inr (omega arith), (omega arith, (omega arith, tt)))

abbrev ahead : TopicSubscription
ahead = record { cursor = 1; durability = durable; connected = true }

busy-IsTopic : IsTopic (7 ∷ 8 ∷ 9 ∷ []) busy
unfolding Assoc.get
busy-IsTopic = record {
  retained = refl;
  base_le = omega arith;
  small = omega arith;
  in_range = (omega arith, (omega arith, tt));
  kept = λ id s e. ground arith;
  cached = λ id r e. ground arith;
}

read_stream-gc_example : (read_stream (gc busy).0 1).1 ≡ (read_stream busy 1).1
unfolding Assoc.get
read_stream-gc_example = read_stream-gc (7 ∷ 8 ∷ 9 ∷ []) busy 1 ahead busy-IsTopic refl refl
