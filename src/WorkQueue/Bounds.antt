-- ===== src/WorkQueue/Bounds.antt =====
-- work_queue.go: the attempts of the items and the map of deliveries, call by call.
use lazily_go.Base.{
  ◌+◌, ◌-◌, ◌<◌, ◌==◌, ◌∙◌, ◌∷◌, ◌≡◌, ◌≤◌, ==_iff, All, All-append, Bool, Comparable, List, Option,
  [], arith, equal, if_elim, leb, length, ltb, none, not, refl, some, some_inj, subst, sym, ℕ,
  ℕ_comparable, bool_comparable, option_comparable,
}
use lazily_go.WorkQueue.{
  WorkQueueCell, WorkQueueDeadLetter, WorkQueueDeadLetterReason, WorkQueueDelivery, WorkQueueItem,
  drop_delivery, fail, invalidate_changed, claim_pending, delivery_of, expired, max_int64, overdue,
  push, reap_all, reap_expired, reap_one, ack, ack_found, nack, nack_found, nacked,
}
use lazily_go.Base.Assoc
use lazily_go.Base.Word.{max_uint64}
use lazily_go.Base.Sort.{sort}

module _ {ℓ} {W T : Type ℓ} where
  -- The attempts of each item are in bounds, the map of deliveries has one entry for an id, and every id
  -- in it is below the next one.
  pub record IsQueue (q : WorkQueueCell W T) : Type ℓ where
    pub positive : 1 ≤ q.max_deliveries
    pub waiting : All (λ (it : WorkQueueItem T). it.attempts < q.max_deliveries) q.pending
    pub flying :
        (k : ℕ) (d : WorkQueueDelivery W T)
        → Assoc.get k q.in_flight ≡ some d
        → (k < q.next_delivery_id) × (d.attempt ≤ q.max_deliveries)
    pub dead : All (λ (l : WorkQueueDeadLetter T). l.attempts ≡ q.max_deliveries) q.dead_letters
    pub distinct : Assoc.Distinct q.in_flight

  pub invalidate-IsQueue :
      (before q : WorkQueueCell W T) → IsQueue q → IsQueue (invalidate_changed before q)
  unfolding invalidate_changed
  invalidate-IsQueue before q v = record {
    positive = v.positive;
    waiting = v.waiting;
    flying = v.flying;
    dead = v.dead;
    distinct = v.distinct;
  }

  pub drop_delivery-IsQueue :
      (q : WorkQueueCell W T) (id : ℕ) → IsQueue q → IsQueue (drop_delivery q id)
  drop_delivery-IsQueue q id v = record {
    positive = v.positive;
    waiting = v.waiting;
    flying = λ k d e. v.flying k d (ground (arith, sym (Assoc.get-delete id k q.in_flight) ∙ e));
    dead = v.dead;
    distinct = Assoc.delete-Distinct id q.in_flight v.distinct;
  }

  pub fail-IsQueue :
      (q : WorkQueueCell W T) (d : WorkQueueDelivery W T) (r : WorkQueueDeadLetterReason)
      → IsQueue q
      → d.attempt ≤ q.max_deliveries
      → IsQueue (fail q d r)
  unfolding fail
  fail-IsQueue q d r v le =
      if_elim IsQueue (leb q.max_deliveries d.attempt)
        (λ last. record {
          positive = v.positive;
          waiting = v.waiting;
          flying = v.flying;
          dead = All-append _ q.dead_letters _ v.dead (ground arith, tt);
          distinct = v.distinct;
        })
        (λ again. record {
          positive = v.positive;
          waiting = All-append _ q.pending _ v.waiting (ground arith, tt);
          flying = v.flying;
          dead = v.dead;
          distinct = v.distinct;
        })

  pub push-IsQueue : (q : WorkQueueCell W T) (value : T) → IsQueue q → IsQueue (push q value).0
  unfolding push
  push-IsQueue q value v =
      if_elim (λ (x : WorkQueueCell W T × Option ℕ). IsQueue x.0) (q.next_item_id == max_uint64)
        (λ _. v)
        (λ _. invalidate-IsQueue q _ (record {
          positive = v.positive;
          waiting = All-append _ q.pending _ v.waiting (omega (arith, v.positive), tt);
          flying = v.flying;
          dead = v.dead;
          distinct = v.distinct;
        }))

  pub claim-IsQueue :
      (q : WorkQueueCell W T) (pending : List (WorkQueueItem T)) (worker : W) (now : ℕ)
      → q.pending ≡ pending
      → IsQueue q
      → IsQueue (claim_pending q pending worker now).0
  unfolding claim_pending
  claim-IsQueue q [] worker now e v = v
  claim-IsQueue q (item ∷ rest) worker now e v =
      if_elim Ok (q.next_delivery_id == max_uint64) (λ _. v)
        (λ _.
          if_elim Ok (ltb (max_int64 - q.visibility_timeout) now) (λ _. v)
            (λ _. invalidate-IsQueue q _ (record {
              positive = v.positive;
              waiting = (subst (All Few) e v.waiting).1;
              flying = λ k d h.
                  if_elim
                    (λ found.
                      found ≡ some d
                      → (k < q.next_delivery_id + 1) × (d.attempt ≤ q.max_deliveries))
                    (equal q.next_delivery_id k)
                    (λ same here. (
                      omega (arith, (==_iff q.next_delivery_id k).0 same),
                      subst (λ x. x.attempt ≤ q.max_deliveries) (some_inj here)
                          (omega (arith, (subst (All Few) e v.waiting).0)),
                    ))
                    (λ _ here. (omega (arith, (v.flying k d here).0), (v.flying k d here).1))
                    (sym (
                        Assoc.get-put q.next_delivery_id k (delivery_of q item worker now)
                          q.in_flight)
                      ∙ h);
              dead = v.dead;
              distinct = Assoc.put-Distinct q.next_delivery_id _ q.in_flight v.distinct;
            })))
    where
      Ok : WorkQueueCell W T × Option (Option (WorkQueueDelivery W T)) → Type ℓ
      Ok x = IsQueue x.0

      Few : WorkQueueItem T → Type 0
      Few it = it.attempts < q.max_deliveries

  pub reap_one-IsQueue : (q : WorkQueueCell W T) (id : ℕ) → IsQueue q → IsQueue (reap_one q id)
  unfolding reap_one
  reap_one-IsQueue q id v = go (Assoc.get id q.in_flight) refl
    where
      go :
          (found : Option (WorkQueueDelivery W T))
          → Assoc.get id q.in_flight ≡ found
          → IsQueue
              (elim found [ none ↦ q | some delivery ↦ fail (drop_delivery q id) delivery expired ])
      go none e = v
      go (some d) e =
          fail-IsQueue (drop_delivery q id) d expired (drop_delivery-IsQueue q id v)
            (v.flying id d e).1

  reap_all-IsQueue : (q : WorkQueueCell W T) (ids : List ℕ) → IsQueue q → IsQueue (reap_all q ids)
  unfolding reap_all
  reap_all-IsQueue q [] v = v
  reap_all-IsQueue q (id ∷ ids) v = reap_all-IsQueue (reap_one q id) ids (reap_one-IsQueue q id v)

  pub reap_expired-IsQueue :
      (q : WorkQueueCell W T) (now : ℕ) → IsQueue q → IsQueue (reap_expired q now).0
  unfolding reap_expired
  reap_expired-IsQueue q now v =
      if_elim (λ (x : WorkQueueCell W T × ℕ). IsQueue x.0) (length (overdue now q.in_flight) == 0)
        (λ _. v)
        (λ _. invalidate-IsQueue q _ (reap_all-IsQueue q (sort (overdue now q.in_flight)) v))

module _ {ℓ} {W T : Type ℓ} ⦃w : Comparable W⦄ where
  pub ack-IsQueue :
      (q : WorkQueueCell W T) (worker : W) (id : ℕ) → IsQueue q → IsQueue (ack q worker id).0
  unfolding ack
  ack-IsQueue q worker id v = go (Assoc.get id q.in_flight)
    where
      go : (found : Option (WorkQueueDelivery W T)) → IsQueue (ack_found q worker id found).0
      go none = v
      go (some d) =
          if_elim (λ (x : WorkQueueCell W T × Bool). IsQueue x.0) (not (equal d.worker worker))
            (λ _. v) (λ _. invalidate-IsQueue q _ (drop_delivery-IsQueue q id v))

  pub nack-IsQueue :
      (q : WorkQueueCell W T) (worker : W) (id : ℕ) → IsQueue q → IsQueue (nack q worker id).0
  unfolding nack
  nack-IsQueue q worker id v = go (Assoc.get id q.in_flight) refl
    where
      go :
          (found : Option (WorkQueueDelivery W T))
          → Assoc.get id q.in_flight ≡ found
          → IsQueue (nack_found q worker id found).0
      go none e = v
      go (some d) e =
          if_elim (λ (x : WorkQueueCell W T × Bool). IsQueue x.0) (not (equal d.worker worker))
            (λ _. v)
            (λ _. invalidate-IsQueue q _ (
              fail-IsQueue (drop_delivery q id) d nacked (drop_delivery-IsQueue q id v)
                (v.flying id d e).1))
