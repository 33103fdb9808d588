-- ===== src/WorkQueue.antt =====
-- work_queue.go, `WorkQueueCell`: competing consumers with acknowledgement, redelivery and dead letters.
-- Times are `int64`s that are not negative, ids and attempts are `uint64`s. A call that panics gives
-- `none` for its result and leaves the queue as it was. `told` counts how often `invalidate` has
-- invalidated each reader.
pub mod Places
pub mod Bounds
pub mod Conserve
pub mod Runs
pub mod Attempts
pub mod Deliveries
mod Tests
use lazily_go.Base.{
  ◌+◌, ◌++◌, ◌-◌, ◌==◌, if◌then◌else◌, ◌||◌, ◌∷◌, Bool, Comparable, List, Option, [], bool_eq,
  equal, false, leb, length, ltb, none, not, some, true, ℕ, ℕ_comparable, bool_comparable,
  option_comparable,
}
use lazily_go.Base.Word.{max_uint64}
use lazily_go.Base.Sort.{sort}
use lazily_go.Base.Assoc

pub record WorkQueueItem {ℓ} (T : Type ℓ) : Type ℓ where
  pub item_id : ℕ
  pub value : T
  pub attempts : ℕ

pub record WorkQueueDelivery {ℓ} (W T : Type ℓ) : Type ℓ where
  pub delivery_id : ℕ
  pub item_id : ℕ
  pub value : T
  pub worker : W
  pub attempt : ℕ
  pub deadline : ℕ

pub data WorkQueueDeadLetterReason : Type 0 where
  nacked expired : WorkQueueDeadLetterReason

pub record WorkQueueDeadLetter {ℓ} (T : Type ℓ) : Type ℓ where
  pub item_id : ℕ
  pub value : T
  pub attempts : ℕ
  pub reason : WorkQueueDeadLetterReason

pub record WorkQueueReaders : Type 0 where
  pub pending_len : ℕ
  pub is_empty : ℕ
  pub in_flight_len : ℕ
  pub dead_letter_len : ℕ

pub record WorkQueueCell {ℓ} (W T : Type ℓ) : Type ℓ where
  pub visibility_timeout : ℕ
  pub max_deliveries : ℕ
  pub pending : List (WorkQueueItem T)
  pub in_flight : List (ℕ × WorkQueueDelivery W T)
  pub dead_letters : List (WorkQueueDeadLetter T)
  pub next_item_id : ℕ
  pub next_delivery_id : ℕ
  pub told : WorkQueueReaders

abbrev told_if : Bool → ℕ → ℕ
told_if changed n = if changed then n + 1 else n

module _ {ℓ} {W T : Type ℓ} where
  -- `NewWorkQueueCell`; `none` is a panic.
  unfoldable pub new_work_queue_cell : ℕ → ℕ → Option (WorkQueueCell W T)
  new_work_queue_cell visibility_timeout max_deliveries =
      if leb visibility_timeout 0 || ltb max_deliveries 1
      then none
      else some (record {
        visibility_timeout = visibility_timeout;
        max_deliveries = max_deliveries;
        pending = [];
        in_flight = [];
        dead_letters = [];
        next_item_id = 0;
        next_delivery_id = 0;
        told = record { pending_len = 0; is_empty = 0; in_flight_len = 0; dead_letter_len = 0 };
      })

  -- `invalidate` of the queue, given the queue before the call for its counts.
  pub invalidate_changed : WorkQueueCell W T → WorkQueueCell W T → WorkQueueCell W T
  invalidate_changed before q = record q {
    told = record {
      pending_len = told_if (not (length before.pending == length q.pending)) q.told.pending_len;
      is_empty =
          told_if (not (bool_eq (length before.pending == 0) (length q.pending == 0)))
            q.told.is_empty;
      in_flight_len =
          told_if (not (length before.in_flight == length q.in_flight)) q.told.in_flight_len;
      dead_letter_len =
          told_if (not (length before.dead_letters == length q.dead_letters))
            q.told.dead_letter_len;
    };
  }

  unfoldable pub push : WorkQueueCell W T → T → WorkQueueCell W T × Option ℕ
  unfolding invalidate_changed
  push q value = if q.next_item_id == max_uint64 then (q, none) else (
    invalidate_changed q (record q {
      next_item_id = q.next_item_id + 1;
      pending = q.pending ++ record { item_id = q.next_item_id; value = value; attempts = 0 } ∷ [];
    }),
    some q.next_item_id,
  )

  abbrev pub delivery_of : WorkQueueCell W T → WorkQueueItem T → W → ℕ → WorkQueueDelivery W T
  delivery_of q item worker now = record {
    delivery_id = q.next_delivery_id;
    item_id = item.item_id;
    value = item.value;
    worker = worker;
    attempt = item.attempts + 1;
    deadline = now + q.visibility_timeout;
  }

  -- `fail`.
  pub fail :
      WorkQueueCell W T → WorkQueueDelivery W T → WorkQueueDeadLetterReason → WorkQueueCell W T
  fail q delivery reason =
      if leb q.max_deliveries delivery.attempt
      then record q {
        dead_letters =
            q.dead_letters
            ++ record {
              item_id = delivery.item_id;
              value = delivery.value;
              attempts = delivery.attempt;
              reason = reason;
            }
              ∷ [];
      }
      else record q {
        pending =
            q.pending
            ++ record {
              item_id = delivery.item_id;
              value = delivery.value;
              attempts = delivery.attempt;
            }
              ∷ [];
      }

-- The largest `int64`, as a number.
abbrev pub max_int64 : ℕ
max_int64 = 9223372036854775807

module _ {ℓ} {W T : Type ℓ} where
  -- The pending list is that of the queue, for its first item.
  pub claim_pending :
      WorkQueueCell W T
      → List (WorkQueueItem T)
      → W
      → ℕ
      → WorkQueueCell W T × Option (Option (WorkQueueDelivery W T))
  unfolding invalidate_changed
  claim_pending q [] worker now = (q, some none)
  claim_pending q (item ∷ rest) worker now =
      if q.next_delivery_id == max_uint64
      then (q, none)
      else if ltb (max_int64 - q.visibility_timeout) now
      then (q, none)
      else (
        invalidate_changed q (record q {
          pending = rest;
          next_delivery_id = q.next_delivery_id + 1;
          in_flight = Assoc.put q.next_delivery_id (delivery_of q item worker now) q.in_flight;
        }),
        some (some (delivery_of q item worker now)),
      )

  -- `Claim`: `none` is a panic, and `some none` that nothing is pending.
  unfoldable pub claim :
      WorkQueueCell W T → W → ℕ → WorkQueueCell W T × Option (Option (WorkQueueDelivery W T))
  unfolding claim_pending
  claim q worker now = claim_pending q q.pending worker now

  -- `delete(q.inFlight, id)`.
  abbrev pub drop_delivery : WorkQueueCell W T → ℕ → WorkQueueCell W T
  drop_delivery q id = record q { in_flight = Assoc.delete id q.in_flight }

  -- The body of the second loop of `ReapExpired`. The id is a key of the map.
  pub reap_one : WorkQueueCell W T → ℕ → WorkQueueCell W T
  unfolding fail
  reap_one q id = elim (Assoc.get id q.in_flight) [
    | none ↦ q
    | some delivery ↦ fail (drop_delivery q id) delivery expired
  ]

  pub reap_all : WorkQueueCell W T → List ℕ → WorkQueueCell W T
  reap_all q [] = q
  reap_all q (id ∷ ids) = reap_all (reap_one q id) ids

  -- The first loop of `ReapExpired`.
  pub overdue : ℕ → List (ℕ × WorkQueueDelivery W T) → List ℕ
  overdue now [] = []
  overdue now ((id, delivery) ∷ rest) =
      let more = overdue now rest in if ltb delivery.deadline now then id ∷ more else more

  unfoldable pub reap_expired : WorkQueueCell W T → ℕ → WorkQueueCell W T × ℕ
  unfolding overdue reap_all invalidate_changed
  reap_expired q now =
      let ids = overdue now q.in_flight in
      if length ids == 0 then (q, 0) else (invalidate_changed q (reap_all q (sort ids)), length ids)

module _ {ℓ} {W T : Type ℓ} ⦃w : Comparable W⦄ where
  pub ack_found :
      WorkQueueCell W T → W → ℕ → Option (WorkQueueDelivery W T) → WorkQueueCell W T × Bool
  unfolding invalidate_changed
  ack_found q worker id none = (q, false)
  ack_found q worker id (some delivery) =
      if not (equal delivery.worker worker)
      then (q, false)
      else (invalidate_changed q (drop_delivery q id), true)

  unfoldable pub ack : WorkQueueCell W T → W → ℕ → WorkQueueCell W T × Bool
  unfolding ack_found
  ack q worker id = ack_found q worker id (Assoc.get id q.in_flight)

  pub nack_found :
      WorkQueueCell W T → W → ℕ → Option (WorkQueueDelivery W T) → WorkQueueCell W T × Bool
  unfolding invalidate_changed fail
  nack_found q worker id none = (q, false)
  nack_found q worker id (some delivery) =
      if not (equal delivery.worker worker)
      then (q, false)
      else (invalidate_changed q (fail (drop_delivery q id) delivery nacked), true)

  unfoldable pub nack : WorkQueueCell W T → W → ℕ → WorkQueueCell W T × Bool
  unfolding nack_found
  nack q worker id = nack_found q worker id (Assoc.get id q.in_flight)
