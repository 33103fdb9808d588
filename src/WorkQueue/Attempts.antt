-- ===== src/WorkQueue/Attempts.antt =====
-- work_queue.go: what each call does to the attempts of an item, wherever it stands.
use lazily_go.Base.{
  ◌+◌, ◌-◌, ◌==◌, if◌then◌else◌, ◌∙◌, ◌∷◌, ◌≡◌, ◌≤◌, Bool, Comparable, List, Option, Option-cases,
  [], arith, equal, if_elim, inl, inr, leb, length, ltb, none, not, refl, some, total, total-append,
  ℕ, ℕ_comparable, bool_comparable, option_comparable,
}
use lazily_go.WorkQueue.{
  WorkQueueCell, WorkQueueDeadLetter, WorkQueueDeadLetterReason, WorkQueueDelivery, WorkQueueItem,
  claim_pending, delivery_of, drop_delivery, expired, fail, invalidate_changed, max_int64, overdue,
  push, reap_all, reap_expired, reap_one, ack, ack_found, nack, nack_found, nacked,
}
use lazily_go.WorkQueue.Bounds.{IsQueue, reap_one-IsQueue}
use lazily_go.WorkQueue.Places.{hit, total-delete, total-put_new}
use lazily_go.Base.Assoc
use lazily_go.Base.Word.{max_uint64}
use lazily_go.Base.Sort.{sort}
use lazily_go.WorkQueue.Conserve.{if_same, taken_found}

-- The number, for the item with this id.
abbrev pub spent : ℕ → ℕ → ℕ → ℕ
spent i id n = if i == id then n else 0

-- What an acknowledged item leaves behind: as much as the limit.
abbrev pub released : ℕ → List ℕ → ℕ → ℕ
released m acked i = total (λ id. spent i id m) acked

module _ {ℓ} {W T : Type ℓ} where
  -- The item that a call of `Claim` hands out.
  abbrev pub handed : Option (Option (WorkQueueDelivery W T)) → List ℕ → List ℕ
  handed none ids = ids
  handed (some none) ids = ids
  handed (some (some d)) ids = d.item_id ∷ ids

  -- The attempts of an item, wherever it stands.
  abbrev pub attempts_at : WorkQueueCell W T → ℕ → ℕ
  attempts_at q i =
      total (λ (it : WorkQueueItem T). spent i it.item_id it.attempts) q.pending
      + total (λ (e : ℕ × WorkQueueDelivery W T). spent i e.1.item_id e.1.attempt) q.in_flight
      + total (λ (l : WorkQueueDeadLetter T). spent i l.item_id l.attempts) q.dead_letters

  -- The limit stays, and so do the attempts of every item.
  abbrev pub Keeps : WorkQueueCell W T → WorkQueueCell W T → Type 0
  Keeps q q' =
      (q'.max_deliveries ≡ q.max_deliveries) × ((i : ℕ) → attempts_at q' i ≡ attempts_at q i)

  Keeps-trans : (a b c : WorkQueueCell W T) → Keeps a b → Keeps b c → Keeps a c
  Keeps-trans a b c f g = (g.0 ∙ f.0, λ i. g.1 i ∙ f.1 i)

  invalidate-Keeps :
      (before a q : WorkQueueCell W T) → Keeps a q → Keeps a (invalidate_changed before q)
  unfolding invalidate_changed
  invalidate-Keeps before a q k = k

  pub push-Keeps : (q : WorkQueueCell W T) (value : T) → Keeps q (push q value).0
  unfolding push invalidate_changed
  push-Keeps q value =
      if_elim (λ (x : WorkQueueCell W T × Option ℕ). Keeps q x.0) (q.next_item_id == max_uint64)
        (λ _. (refl, λ i. refl))
        (λ _. (
          refl,
          λ i.
              let new : WorkQueueItem T = record {
                item_id = q.next_item_id;
                value = value;
                attempts = 0;
              } in
              let unspent : spent i q.next_item_id 0 ≡ 0 = ground arith in
              omega (
                arith,
                unspent,
                total-append (λ (it : WorkQueueItem T). spent i it.item_id it.attempts) q.pending
                    (new ∷ []),
              ),
        ))

  -- A delivery that fails takes its attempts with it.
  failed-Keeps :
      (q : WorkQueueCell W T) (id : ℕ) (d : WorkQueueDelivery W T) (r : WorkQueueDeadLetterReason)
      → IsQueue q
      → Assoc.get id q.in_flight ≡ some d
      → Keeps q (fail (drop_delivery q id) d r)
  unfolding fail
  failed-Keeps q id d r ok e =
      if_elim (Keeps q) (leb q.max_deliveries d.attempt)
        (λ _. (
          refl,
          λ i. omega (
            arith,
            dropped i,
            total-append (λ (l : WorkQueueDeadLetter T). spent i l.item_id l.attempts)
                q.dead_letters _,
          ),
        ))
        (λ _. (
          refl,
          λ i. omega (
            arith,
            dropped i,
            total-append (λ (it : WorkQueueItem T). spent i it.item_id it.attempts) q.pending _,
          ),
        ))
    where
      dropped :
          (i : ℕ)
          → total
                (λ (e : ℕ × WorkQueueDelivery W T). spent i e.1.item_id e.1.attempt)
                (Assoc.delete id q.in_flight)
              + spent i d.item_id d.attempt
            ≡ total (λ (e : ℕ × WorkQueueDelivery W T). spent i e.1.item_id e.1.attempt) q.in_flight
      dropped i =
          total-delete (λ (d : WorkQueueDelivery W T). spent i d.item_id d.attempt) id d q.in_flight
            ok.distinct e

  reap_one-Keeps : (q : WorkQueueCell W T) (id : ℕ) → IsQueue q → Keeps q (reap_one q id)
  unfolding reap_one
  reap_one-Keeps q id ok = go (Assoc.get id q.in_flight) refl
    where
      go :
          (found : Option (WorkQueueDelivery W T))
          → Assoc.get id q.in_flight ≡ found
          → Keeps q
              (elim found [ none ↦ q | some delivery ↦ fail (drop_delivery q id) delivery expired ])
      go none e = (refl, λ i. refl)
      go (some d) e = failed-Keeps q id d expired ok e

  reap_all-Keeps : (q : WorkQueueCell W T) (ids : List ℕ) → IsQueue q → Keeps q (reap_all q ids)
  unfolding reap_all
  reap_all-Keeps q [] ok = (refl, λ i. refl)
  reap_all-Keeps q (id ∷ ids) ok =
      Keeps-trans q (reap_one q id) (reap_all (reap_one q id) ids) (reap_one-Keeps q id ok)
        (reap_all-Keeps (reap_one q id) ids (reap_one-IsQueue q id ok))

  pub reap_expired-Keeps :
      (q : WorkQueueCell W T) (now : ℕ) → IsQueue q → Keeps q (reap_expired q now).0
  unfolding reap_expired
  reap_expired-Keeps q now ok =
      if_elim (λ (x : WorkQueueCell W T × ℕ). Keeps q x.0) (length (overdue now q.in_flight) == 0)
        (λ _. (refl, λ i. refl))
        (λ _.
          invalidate-Keeps q q (reap_all q (sort (overdue now q.in_flight)))
            (reap_all-Keeps q (sort (overdue now q.in_flight)) ok))

  -- A claim adds one to the attempts of the item that it hands out.
  abbrev pub Claimed :
      WorkQueueCell W T → WorkQueueCell W T × Option (Option (WorkQueueDelivery W T)) → Type 0
  Claimed q (q', found) =
      (q'.max_deliveries ≡ q.max_deliveries)
      × ((i : ℕ) → attempts_at q' i ≡ attempts_at q i + total (hit i) (handed found []))

  pub claim-Claimed :
      (q : WorkQueueCell W T) (pending : List (WorkQueueItem T)) (worker : W) (now : ℕ)
      → q.pending ≡ pending
      → IsQueue q
      → Claimed q (claim_pending q pending worker now)
  unfolding claim_pending invalidate_changed
  claim-Claimed q [] worker now e ok = (refl, λ i. omega arith)
  claim-Claimed q (item ∷ rest) worker now e ok =
      if_elim (Claimed q) (q.next_delivery_id == max_uint64) (λ _. (refl, λ i. omega arith))
        (λ _.
          if_elim (Claimed q) (ltb (max_int64 - q.visibility_timeout) now)
            (λ _. (refl, λ i. omega arith))
            (λ _. (
              refl,
              λ i.
                  let moved =
                    total-put_new (λ (d : WorkQueueDelivery W T). spent i d.item_id d.attempt)
                      q.next_delivery_id (delivery_of q item worker now) q.in_flight fresh in
                  let once : spent i item.item_id (item.attempts + 1)
                      ≡ spent i item.item_id item.attempts + hit i item.item_id =
                    ground arith in
                  rw e (omega arith),
            )))
    where
      fresh : Assoc.get q.next_delivery_id q.in_flight ≡ none
      fresh = elim (Option-cases (Assoc.get q.next_delivery_id q.in_flight)) [
        | inl free ↦ free
        | inr (d, taken) ↦ absurd (omega (arith, (ok.flying q.next_delivery_id d taken).0))
      ]

module _ {ℓ} {W T : Type ℓ} ⦃w : Comparable W⦄ where
  pub nack-Keeps :
      (q : WorkQueueCell W T) (worker : W) (id : ℕ) → IsQueue q → Keeps q (nack q worker id).0
  unfolding nack
  nack-Keeps q worker id ok = go (Assoc.get id q.in_flight) refl
    where
      go :
          (found : Option (WorkQueueDelivery W T))
          → Assoc.get id q.in_flight ≡ found
          → Keeps q (nack_found q worker id found).0
      go none e = (refl, λ i. refl)
      go (some d) e =
          if_elim (λ (x : WorkQueueCell W T × Bool). Keeps q x.0) (not (equal d.worker worker))
            (λ _. (refl, λ i. refl))
            (λ _.
              invalidate-Keeps q q (fail (drop_delivery q id) d nacked)
                (failed-Keeps q id d nacked ok e))

  abbrev pub Acknowledged : ℕ → List ℕ → WorkQueueCell W T → List ℕ → WorkQueueCell W T → Type 0
  Acknowledged m acked q acked' q' =
      (q'.max_deliveries ≡ q.max_deliveries)
      × ((i : ℕ) → attempts_at q i + released m acked i ≤ attempts_at q' i + released m acked' i)

  pub ack-Acknowledged :
      (m : ℕ) (acked : List ℕ) (q : WorkQueueCell W T) (worker : W) (id : ℕ)
      → q.max_deliveries ≡ m
      → IsQueue q
      → Acknowledged m acked q
          (taken_found worker acked (Assoc.get id q.in_flight))
          (ack q worker id).0
  unfolding ack invalidate_changed
  ack-Acknowledged m acked q worker id limit ok = go (Assoc.get id q.in_flight) refl
    where
      go :
          (found : Option (WorkQueueDelivery W T))
          → Assoc.get id q.in_flight ≡ found
          → Acknowledged m acked q (taken_found worker acked found) (ack_found q worker id found).0
      go none e = (refl, λ i. omega arith)
      go (some d) e =
          if_same (λ a (x : WorkQueueCell W T × Bool). Acknowledged m acked q a x.0)
            (not (equal d.worker worker)) (refl, λ i. omega arith)
            (
              refl,
              λ i.
                  let dropped =
                    total-delete (λ (d : WorkQueueDelivery W T). spent i d.item_id d.attempt) id d
                      q.in_flight ok.distinct e in
                  let few : spent i d.item_id d.attempt ≤ spent i d.item_id m =
                    ground (arith, (ok.flying id d e).1, limit) in
                  omega arith,
            )
