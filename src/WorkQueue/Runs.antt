-- ===== src/WorkQueue/Runs.antt =====
-- work_queue.go: runs of calls on a new queue.
use lazily_go.Base.{
  ◌||◌, ◌∷◌, ◌≡◌, Bool-cases, Comparable, List, [], arith, inl, inr, leb, ltb, max, refl, some,
  some_inj, subst, ℕ, ℕ_comparable, bool_comparable, option_comparable,
}
use lazily_go.WorkQueue.{WorkQueueCell, ack, claim, nack, new_work_queue_cell, push, reap_expired}
use lazily_go.WorkQueue.Bounds.{
  IsQueue, ack-IsQueue, claim-IsQueue, nack-IsQueue, push-IsQueue, reap_expired-IsQueue,
}
use lazily_go.WorkQueue.Conserve.{
  Conserved, ack-Conserved, claim-Conserved, nack-Conserved, push-Conserved, reap_expired-Conserved,
  taken_found,
}
use lazily_go.Base.Assoc

-- The calls on a queue.
pub data WorkQueueOp {ℓ} (W T : Type ℓ) : Type ℓ where
  pushes : T → WorkQueueOp W T
  claims acks nacks : W → ℕ → WorkQueueOp W T
  reaps : ℕ → WorkQueueOp W T

module _ {ℓ} {W T : Type ℓ} ⦃w : Comparable W⦄ where
  -- The queue after the calls, and the items that were acknowledged.
  unfoldable pub work_run :
      List ℕ → WorkQueueCell W T → List (WorkQueueOp W T) → List ℕ × WorkQueueCell W T
  work_run acked q [] = (acked, q)
  work_run acked q (pushes value ∷ ops) = work_run acked (push q value).0 ops
  work_run acked q (claims worker now ∷ ops) = work_run acked (claim q worker now).0 ops
  work_run acked q (acks worker id ∷ ops) =
      work_run (taken_found worker acked (Assoc.get id q.in_flight)) (ack q worker id).0 ops
  work_run acked q (nacks worker id ∷ ops) = work_run acked (nack q worker id).0 ops
  work_run acked q (reaps now ∷ ops) = work_run acked (reap_expired q now).0 ops

  abbrev pub Sound : List ℕ × WorkQueueCell W T → Type ℓ
  Sound (acked, q) = IsQueue q × Conserved acked q

  work_run-Sound :
      (acked : List ℕ) (q : WorkQueueCell W T) (ops : List (WorkQueueOp W T))
      → IsQueue q
      → Conserved acked q
      → Sound (work_run acked q ops)
  unfolding work_run claim
  work_run-Sound acked q [] ok v = (ok, v)
  work_run-Sound acked q (pushes value ∷ ops) ok v =
      work_run-Sound acked (push q value).0 ops (push-IsQueue q value ok)
        (push-Conserved acked q value v)
  work_run-Sound acked q (claims worker now ∷ ops) ok v =
      work_run-Sound acked (claim q worker now).0 ops (claim-IsQueue q q.pending worker now refl ok)
        (claim-Conserved acked q q.pending worker now refl ok v)
  work_run-Sound acked q (acks worker id ∷ ops) ok v =
      work_run-Sound (taken_found worker acked (Assoc.get id q.in_flight)) (ack q worker id).0 ops
        (ack-IsQueue q worker id ok) (ack-Conserved acked q worker id ok v)
  work_run-Sound acked q (nacks worker id ∷ ops) ok v =
      work_run-Sound acked (nack q worker id).0 ops (nack-IsQueue q worker id ok)
        (nack-Conserved acked q worker id ok v)
  work_run-Sound acked q (reaps now ∷ ops) ok v =
      work_run-Sound acked (reap_expired q now).0 ops (reap_expired-IsQueue q now ok)
        (reap_expired-Conserved acked q now ok v)

  new-Sound :
      (timeout max : ℕ) (q : WorkQueueCell W T)
      → new_work_queue_cell timeout max ≡ some q
      → Sound ([], q)
  unfolding new_work_queue_cell Assoc.get
  new-Sound timeout max q e = elim (Bool-cases (leb timeout 0 || ltb max 1)) [
    | inl bad ↦ absurd (ground arith)
    | inr good ↦
        subst (λ x. Sound ([], x)) (some_inj (rw (good, new_work_queue_cell) at e))
          (
            record {
              positive = ground arith;
              waiting = tt;
              flying = λ k d h. cc;
              dead = tt;
              distinct = tt;
            },
            λ i. ground arith,
          )
  ]

  -- After any calls on a new queue every pushed item has been acknowledged once, or is pending once, or
  -- in flight once, or dead-lettered once, and it is only one of these; nothing else is in the queue.
  pub work_run-Conserved :
      (timeout max : ℕ) (q : WorkQueueCell W T) (ops : List (WorkQueueOp W T))
      → new_work_queue_cell timeout max ≡ some q
      → Conserved (work_run [] q ops).0 (work_run [] q ops).1
  work_run-Conserved timeout max q ops e =
      let (ok, v) = new-Sound timeout max q e in (work_run-Sound [] q ops ok v).1

  -- After any calls on a new queue the attempts of its items and deliveries are in bounds.
  pub work_run-IsQueue :
      (timeout max : ℕ) (q : WorkQueueCell W T) (ops : List (WorkQueueOp W T))
      → new_work_queue_cell timeout max ≡ some q
      → IsQueue (work_run [] q ops).1
  work_run-IsQueue timeout max q ops e =
      let (ok, v) = new-Sound timeout max q e in (work_run-Sound [] q ops ok v).0
