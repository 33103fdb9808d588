-- ===== src/Topic.antt =====
-- queue.go, `TopicCell`: a broadcast log with a cursor for each subscriber. Offsets and counts are
-- `int`s in two's complement: a negative x is the number 2^64 + x. The argument of `Subscribe` is one
-- of the two durabilities. A call that panics gives `none` for its result and leaves the topic as it
-- was. A reader is a `Computed`: the value that it has cached, if any.
mod Scan
pub mod Log
mod Steps
mod Reads
pub mod Refines
pub mod Collect
pub mod Saved
pub mod Snapshot
mod Tests
use lazily_go.Base.{
  ◌&&◌, ◌++◌, ◌-◌, ◌==◌, if◌then◌else◌, ◌||◌, ◌∷◌, Bool, Comparable, List, Option, [], drop, false,
  length, ltb, none, not, some, true, ℕ, ℕ_comparable, bool_comparable, option_comparable,
}
use lazily_go.Base.Assoc
use lazily_go.Base.Word.{int_lt, add_u64}

pub data TopicDurability : Type 0 where
  durable ephemeral : TopicDurability

pub data TopicSubscribeOutcome : Type 0 where
  subscribed reconnected already_subscribed : TopicSubscribeOutcome

-- `topicSubscription`.
pub record TopicSubscription : Type 0 where
  pub cursor : ℕ
  pub durability : TopicDurability
  pub connected : Bool

pub record TopicRead {ℓ} (T : Type ℓ) : Type ℓ where
  pub elements : List T
  pub exists_ : Bool

pub record TopicCell {ℓ} (I T : Type ℓ) : Type ℓ where
  pub base_offset : ℕ
  pub elements : List T
  pub subscriptions : List (I × TopicSubscription)
  pub readers : List (I × Option (TopicRead T))

abbrev pub is_durable : TopicDurability → Bool
is_durable durable = true
is_durable ephemeral = false

module _ {ℓ} {I : Type ℓ} where
  -- The ids of the connected subscriptions, in `Publish`.
  pub connected_ids : List (I × TopicSubscription) → List I
  connected_ids [] = []
  connected_ids ((id, sub) ∷ rest) =
      let more = connected_ids rest in if sub.connected then id ∷ more else more

  -- The loop of `GC`.
  pub lowest_durable : ℕ → List (I × TopicSubscription) → ℕ
  lowest_durable frontier [] = frontier
  lowest_durable frontier ((id, sub) ∷ rest) =
      lowest_durable
        (if is_durable sub.durability && int_lt sub.cursor frontier then sub.cursor else frontier)
        rest

module _ {ℓ} {I T : Type ℓ} where
  unfoldable pub new_topic_cell : TopicCell I T
  new_topic_cell = record { base_offset = 0; elements = []; subscriptions = []; readers = [] }

  unfoldable pub tail_offset : TopicCell I T → ℕ
  tail_offset t = add_u64 t.base_offset (length t.elements)

  unfoldable pub gc : TopicCell I T → TopicCell I T × Option ℕ
  unfolding lowest_durable tail_offset
  gc t =
      let frontier = lowest_durable (tail_offset t) t.subscriptions in
      if int_lt frontier t.base_offset then (t, none) else (
        record t { elements = drop (frontier - t.base_offset) t.elements; base_offset = frontier },
        some (frontier - t.base_offset),
      )

module _ {ℓ} {I T : Type ℓ} ⦃c : Comparable I⦄ where
  abbrev pub subscription : TopicCell I T → I → Option TopicSubscription
  subscription t id = Assoc.get id t.subscriptions

  abbrev pub reader : TopicCell I T → I → Option (Option (TopicRead T))
  reader t id = Assoc.get id t.readers

  pub ensure_found : TopicCell I T → I → Option (Option (TopicRead T)) → TopicCell I T
  ensure_found t id none = record t { readers = Assoc.put id none t.readers }
  ensure_found t id (some _) = t

  unfoldable pub ensure_reader : TopicCell I T → I → TopicCell I T
  unfolding ensure_found
  ensure_reader t id = ensure_found t id (reader t id)

  -- `reader.invalidate()`, if the id has a reader.
  pub drop_one : List (I × Option (TopicRead T)) → I → List (I × Option (TopicRead T))
  drop_one readers id = elim (Assoc.get id readers) [
    | none ↦ readers
    | some _ ↦ Assoc.put id none readers
  ]

  -- The loop of `invalidate`.
  pub drop_cached : List (I × Option (TopicRead T)) → List I → List (I × Option (TopicRead T))
  drop_cached readers [] = readers
  drop_cached readers (id ∷ ids) = drop_cached (drop_one readers id) ids

  -- `invalidate`.
  abbrev pub invalidate_ids : TopicCell I T → List I → TopicCell I T
  invalidate_ids t ids = record t { readers = drop_cached t.readers ids }

  abbrev pub put_subscription : TopicCell I T → I → TopicSubscription → TopicCell I T
  put_subscription t id sub = record t { subscriptions = Assoc.put id sub t.subscriptions }

  -- `Subscribe`, `Reconnect` and `Disconnect`, after the lookup.
  pub subscribe_found :
      TopicCell I T
      → I
      → TopicDurability
      → Option TopicSubscription
      → TopicCell I T × Option TopicSubscribeOutcome
  unfolding tail_offset ensure_reader
  subscribe_found t id durability (some sub) =
      if sub.connected
      then (t, some already_subscribed)
      else if not (is_durable sub.durability)
      then (t, none)
      else (
        invalidate_ids (put_subscription t id (record sub { connected = true })) (id ∷ []),
        some reconnected,
      )
  subscribe_found t id durability none =
      let sub : TopicSubscription = record {
        cursor = tail_offset t;
        durability = durability;
        connected = true;
      } in
      (invalidate_ids (ensure_reader (put_subscription t id sub) id) (id ∷ []), some subscribed)

  unfoldable pub subscribe :
      TopicCell I T → I → TopicDurability → TopicCell I T × Option TopicSubscribeOutcome
  unfolding subscribe_found
  subscribe t id durability = subscribe_found t id durability (subscription t id)

  pub reconnect_found :
      TopicCell I T → I → Option TopicSubscription → TopicCell I T × Option (Unit {0})
  reconnect_found t id none = (t, none)
  reconnect_found t id (some sub) =
      if not (is_durable sub.durability)
      then (t, none)
      else if not sub.connected
      then (
        invalidate_ids (put_subscription t id (record sub { connected = true })) (id ∷ []),
        some tt,
      )
      else (t, some tt)

  unfoldable pub reconnect : TopicCell I T → I → TopicCell I T × Option (Unit {0})
  unfolding reconnect_found
  reconnect t id = reconnect_found t id (subscription t id)

  pub disconnect_found : TopicCell I T → I → Option TopicSubscription → TopicCell I T
  disconnect_found t id none = t
  disconnect_found t id (some sub) =
      if not sub.connected
      then t
      else if is_durable sub.durability
      then invalidate_ids (put_subscription t id (record sub { connected = false })) (id ∷ [])
      else invalidate_ids (record t { subscriptions = Assoc.delete id t.subscriptions }) (id ∷ [])

  unfoldable pub disconnect : TopicCell I T → I → TopicCell I T
  unfolding disconnect_found
  disconnect t id = disconnect_found t id (subscription t id)

  -- `Publish`, which returns the offset of the value.
  unfoldable pub publish : TopicCell I T → T → TopicCell I T × ℕ
  unfolding tail_offset
  publish t value = (
    invalidate_ids (record t { elements = t.elements ++ value ∷ [] })
        (connected_ids t.subscriptions),
    tail_offset t,
  )

  -- `readUntracked`: a slice from below 0 or from above the length panics. A negative cursor is a number
  -- above every tail.
  pub read_found : TopicCell I T → Option TopicSubscription → Option (TopicRead T)
  unfolding tail_offset
  read_found t none = some (record { elements = []; exists_ = false })
  read_found t (some sub) =
      if not sub.connected
      then some (record { elements = []; exists_ = false })
      else if ltb sub.cursor t.base_offset || ltb (tail_offset t) sub.cursor
      then none
      else some (record { elements = drop (sub.cursor - t.base_offset) t.elements; exists_ = true })

  unfoldable pub read_untracked : TopicCell I T → I → Option (TopicRead T)
  unfolding read_found
  read_untracked t id = read_found t (subscription t id)

  -- The reader keeps what it computes.
  pub keep_read : TopicCell I T → I → Option (TopicRead T) → TopicCell I T × Option (TopicRead T)
  keep_read t id none = (t, none)
  keep_read t id (some r) = (record t { readers = Assoc.put id (some r) t.readers }, some r)

  pub get_reader :
      TopicCell I T → I → Option (Option (TopicRead T)) → TopicCell I T × Option (TopicRead T)
  unfolding read_untracked keep_read
  get_reader t id (some (some r)) = (t, some r)
  get_reader t id (some none) = keep_read t id (read_untracked t id)
  get_reader t id none = keep_read t id (read_untracked t id)

  -- `ReadStream`: `ensureReader(id).Get()`.
  unfoldable pub read_stream : TopicCell I T → I → TopicCell I T × Option (TopicRead T)
  unfolding ensure_reader get_reader
  read_stream t id = let t' = ensure_reader t id in get_reader t' id (reader t' id)

  pub advance_found : TopicCell I T → I → ℕ → Option TopicSubscription → TopicCell I T × Option ℕ
  unfolding tail_offset
  advance_found t id count none = (t, none)
  advance_found t id count (some sub) =
      if int_lt count 0
      then (t, none)
      else if not sub.connected || sub.cursor == tail_offset t
      then (t, some sub.cursor)
      else if int_lt (tail_offset t) (add_u64 sub.cursor count)
      then (t, none)
      else if int_lt 0 count
      then (
        invalidate_ids (put_subscription t id (record sub { cursor = add_u64 sub.cursor count }))
            (id ∷ []),
        some (add_u64 sub.cursor count),
      )
      else (t, some sub.cursor)

  unfoldable pub advance : TopicCell I T → I → ℕ → TopicCell I T × Option ℕ
  unfolding advance_found
  advance t id count = advance_found t id count (subscription t id)
