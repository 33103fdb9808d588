-- ===== src/WorkQueue/Conserve.antt =====
-- work_queue.go: what each call does to the places of an item.
use lazily_go.Base.{
  ◌+◌, ◌-◌, ◌==◌, if◌then◌else◌, ◌∷◌, ◌≡◌, Bool, Comparable, List, Option, Option-cases, [], arith,
  equal, false, if_elim, inl, inr, length, ltb, none, not, refl, some, total, total-append, true, ℕ,
  ℕ_comparable, bool_comparable, option_comparable,
}
use lazily_go.WorkQueue.{
  WorkQueueCell, WorkQueueDeadLetterReason, WorkQueueDelivery, WorkQueueItem, claim_pending,
  delivery_of, drop_delivery, fail, invalidate_changed, max_int64, push, ack, ack_found, expired,
  nack, nack_found, nacked, overdue, reap_all, reap_expired, reap_one,
}
use lazily_go.WorkQueue.Places.{hit, places, places-fail, total-delete, total-put_new}
use lazily_go.WorkQueue.Bounds.{IsQueue, reap_one-IsQueue}
use lazily_go.Base.Word.{max_uint64}
use lazily_go.Base.Assoc
use lazily_go.Base.Sort.{sort}

-- 1 for an item that has been pushed.
abbrev pushed : ℕ → ℕ → ℕ
pushed next i = if ltb i next then 1 else 0

pushed-next : (n i : ℕ) → pushed (n + 1) i ≡ pushed n i + hit i n
pushed-next n i = ground arith

-- Two conditionals on one test.
pub if_same {ℓ κ μ} :
    {A : Type ℓ} {B : Type κ} (P : A → B → Type μ) (b : Bool) {x y : A} {u v : B}
    → P x u
    → P y v
    → P (if b then x else y) (if b then u else v)
if_same P true p q = p
if_same P false p q = q

module _ {ℓ} {W T : Type ℓ} where
  -- Every pushed item is acknowledged or in one place, and in one only; no other item is anywhere.
  abbrev pub Conserved : List ℕ → WorkQueueCell W T → Type 0
  Conserved acked q = (i : ℕ) → places q i + total (hit i) acked ≡ pushed q.next_item_id i

  pub push-Conserved :
      (acked : List ℕ) (q : WorkQueueCell W T) (value : T)
      → Conserved acked q
      → Conserved acked (push q value).0
  unfolding push invalidate_changed
  push-Conserved acked q value v =
      if_elim (λ (x : WorkQueueCell W T × Option ℕ). Conserved acked x.0)
        (q.next_item_id == max_uint64) (λ _. v)
        (λ _ i.
          let new : WorkQueueItem T = record {
            item_id = q.next_item_id;
            value = value;
            attempts = 0;
          } in
          omega (
            arith,
            v i,
            pushed-next q.next_item_id i,
            total-append (λ (it : WorkQueueItem T). hit i it.item_id) q.pending (new ∷ []),
          ))

  pub claim-Conserved :
      (acked : List ℕ) (q : WorkQueueCell W T) (pending : List (WorkQueueItem T)) (worker : W)
      (now : ℕ)
      → q.pending ≡ pending
      → IsQueue q
      → Conserved acked q
      → Conserved acked (claim_pending q pending worker now).0
  unfolding claim_pending invalidate_changed
  claim-Conserved acked q [] worker now e ok v = v
  claim-Conserved acked q (item ∷ rest) worker now e ok v =
      if_elim Ok (q.next_delivery_id == max_uint64) (λ _. v)
        (λ _.
          if_elim Ok (ltb (max_int64 - q.visibility_timeout) now) (λ _. v)
            (λ _ i.
              let moved =
                total-put_new (λ (d : WorkQueueDelivery W T). hit i d.item_id) q.next_delivery_id
                  (delivery_of q item worker now) q.in_flight fresh in
              let before = rw e at (v i) in omega (arith)))
    where
      Ok : WorkQueueCell W T × Option (Option (WorkQueueDelivery W T)) → Type 0
      Ok x = Conserved acked x.0

      fresh : Assoc.get q.next_delivery_id q.in_flight ≡ none
      fresh = elim (Option-cases (Assoc.get q.next_delivery_id q.in_flight)) [
        | inl free ↦ free
        | inr (d, taken) ↦ absurd (omega (arith, (ok.flying q.next_delivery_id d taken).0))
      ]

  places-drop_delivery :
      (q : WorkQueueCell W T) (id : ℕ) (d : WorkQueueDelivery W T) (i : ℕ)
      → IsQueue q
      → Assoc.get id q.in_flight ≡ some d
      → places (drop_delivery q id) i + hit i d.item_id ≡ places q i
  places-drop_delivery q id d i ok e = omega (
    arith,
    total-delete (λ (d : WorkQueueDelivery W T). hit i d.item_id) id d q.in_flight ok.distinct e,
  )

  next-fail :
      (q : WorkQueueCell W T) (d : WorkQueueDelivery W T) (r : WorkQueueDeadLetterReason)
      → (fail q d r).next_item_id ≡ q.next_item_id
  unfolding fail
  next-fail q d r = ground arith

  -- A delivery that fails goes back to the pending items or to the dead letters.
  failed-Conserved :
      (acked : List ℕ) (q : WorkQueueCell W T) (id : ℕ) (d : WorkQueueDelivery W T)
      (r : WorkQueueDeadLetterReason)
      → IsQueue q
      → Assoc.get id q.in_flight ≡ some d
      → Conserved acked q
      → Conserved acked (fail (drop_delivery q id) d r)
  failed-Conserved acked q id d r ok e v i = rw (next-fail (drop_delivery q id) d r) (
      omega
        (arith, v i, places-fail (drop_delivery q id) d r i, places-drop_delivery q id d i ok e))

  reap_one-Conserved :
      (acked : List ℕ) (q : WorkQueueCell W T) (id : ℕ)
      → IsQueue q
      → Conserved acked q
      → Conserved acked (reap_one q id)
  unfolding reap_one
  reap_one-Conserved acked q id ok v = go (Assoc.get id q.in_flight) refl
    where
      go :
          (found : Option (WorkQueueDelivery W T))
          → Assoc.get id q.in_flight ≡ found
          → Conserved acked
              (elim found [ none ↦ q | some delivery ↦ fail (drop_delivery q id) delivery expired ])
      go none e = v
      go (some d) e = failed-Conserved acked q id d expired ok e v

  reap_all-Conserved :
      (acked : List ℕ) (q : WorkQueueCell W T) (ids : List ℕ)
      → IsQueue q
      → Conserved acked q
      → Conserved acked (reap_all q ids)
  unfolding reap_all
  reap_all-Conserved acked q [] ok v = v
  reap_all-Conserved acked q (id ∷ ids) ok v =
      reap_all-Conserved acked (reap_one q id) ids (reap_one-IsQueue q id ok)
        (reap_one-Conserved acked q id ok v)

  pub reap_expired-Conserved :
      (acked : List ℕ) (q : WorkQueueCell W T) (now : ℕ)
      → IsQueue q
      → Conserved acked q
      → Conserved acked (reap_expired q now).0
  unfolding reap_expired invalidate_changed
  reap_expired-Conserved acked q now ok v =
      if_elim (λ (x : WorkQueueCell W T × ℕ). Conserved acked x.0)
        (length (overdue now q.in_flight) == 0) (λ _. v)
        (λ _. reap_all-Conserved acked q (sort (overdue now q.in_flight)) ok v)

module _ {ℓ} {W T : Type ℓ} ⦃w : Comparable W⦄ where
  -- The item that a call of `Ack` takes out of the queue.
  abbrev pub taken_found : W → List ℕ → Option (WorkQueueDelivery W T) → List ℕ
  taken_found worker acked none = acked
  taken_found worker acked (some d) =
      if not (equal d.worker worker) then acked else d.item_id ∷ acked

  pub ack-Conserved :
      (acked : List ℕ) (q : WorkQueueCell W T) (worker : W) (id : ℕ)
      → IsQueue q
      → Conserved acked q
      → Conserved (taken_found worker acked (Assoc.get id q.in_flight)) (ack q worker id).0
  unfolding ack invalidate_changed
  ack-Conserved acked q worker id ok v = go (Assoc.get id q.in_flight) refl
    where
      go :
          (found : Option (WorkQueueDelivery W T))
          → Assoc.get id q.in_flight ≡ found
          → Conserved (taken_found worker acked found) (ack_found q worker id found).0
      go none e = v
      go (some d) e =
          if_same (λ a (x : WorkQueueCell W T × Bool). Conserved a x.0)
            (not (equal d.worker worker)) v
            (λ i. omega (arith, v i, places-drop_delivery q id d i ok e))

  pub nack-Conserved :
      (acked : List ℕ) (q : WorkQueueCell W T) (worker : W) (id : ℕ)
      → IsQueue q
      → Conserved acked q
      → Conserved acked (nack q worker id).0
  unfolding nack invalidate_changed
  nack-Conserved acked q worker id ok v = go (Assoc.get id q.in_flight) refl
    where
      go :
          (found : Option (WorkQueueDelivery W T))
          → Assoc.get id q.in_flight ≡ found
          → Conserved acked (nack_found q worker id found).0
      go none e = v
      go (some d) e =
          if_elim (λ (x : WorkQueueCell W T × Bool). Conserved acked x.0)
            (not (equal d.worker worker)) (λ _. v)
            (λ _. failed-Conserved acked q id d nacked ok e v)
