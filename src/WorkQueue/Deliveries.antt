-- ===== src/WorkQueue/Deliveries.antt =====
-- work_queue.go: the deliveries that a run of calls hands out, item by item.
use lazily_go.Base.{
  ◌+◌, ◌||◌, ◌∙◌, ◌∷◌, ◌≡◌, ◌≤◌, ==-self, ==_iff, All, All-map, All-of_In, Bool-cases, Comparable,
  List, Option, [], arith, equal, inl, inr, leb, ltb, max, none, refl, some, some_inj, subst, total,
  ℕ, ℕ_comparable, bool_comparable, option_comparable,
}
use lazily_go.WorkQueue.{
  WorkQueueCell, WorkQueueDeadLetter, WorkQueueDelivery, WorkQueueItem, push, reap_expired, ack,
  claim, nack, new_work_queue_cell,
}
use lazily_go.WorkQueue.Bounds.{
  IsQueue, ack-IsQueue, claim-IsQueue, nack-IsQueue, push-IsQueue, reap_expired-IsQueue,
}
use lazily_go.WorkQueue.Places.{hit, places}
use lazily_go.Base.Assoc
use lazily_go.WorkQueue.Conserve.{Conserved, taken_found}
use lazily_go.WorkQueue.Runs.{
  WorkQueueOp, acks, claims, nacks, pushes, reaps, work_run, work_run-Conserved, work_run-IsQueue,
}
use lazily_go.WorkQueue.Attempts.{
  ack-Acknowledged, attempts_at, claim-Claimed, handed, nack-Keeps, push-Keeps, reap_expired-Keeps,
  released, spent,
}

module _ {ℓ} {W T : Type ℓ} ⦃w : Comparable W⦄ where
  -- The items that a run hands out to workers, once for each delivery.
  pub deliveries : WorkQueueCell W T → List (WorkQueueOp W T) → List ℕ
  deliveries q [] = []
  deliveries q (pushes value ∷ ops) = deliveries (push q value).0 ops
  deliveries q (claims worker now ∷ ops) =
      handed (claim q worker now).1 (deliveries (claim q worker now).0 ops)
  deliveries q (acks worker id ∷ ops) = deliveries (ack q worker id).0 ops
  deliveries q (nacks worker id ∷ ops) = deliveries (nack q worker id).0 ops
  deliveries q (reaps now ∷ ops) = deliveries (reap_expired q now).0 ops

  -- A run pays for what it hands out with the attempts of the items.
  abbrev Pays : ℕ → List ℕ → WorkQueueCell W T → List ℕ → List ℕ × WorkQueueCell W T → Type 0
  Pays m acked q ids (acked', q') =
      (q'.max_deliveries ≡ m)
      × ((i : ℕ)
          → attempts_at q i + released m acked i + total (hit i) ids
            ≤ attempts_at q' i + released m acked' i)

  handed-total :
      (i : ℕ) (found : Option (Option (WorkQueueDelivery W T))) (ids : List ℕ)
      → total (hit i) (handed found ids) ≡ total (hit i) (handed found []) + total (hit i) ids
  handed-total i none ids = omega arith
  handed-total i (some none) ids = omega arith
  handed-total i (some (some d)) ids = omega arith

  work_run-Pays :
      (m : ℕ) (acked : List ℕ) (q : WorkQueueCell W T) (ops : List (WorkQueueOp W T))
      → q.max_deliveries ≡ m
      → IsQueue q
      → Pays m acked q (deliveries q ops) (work_run acked q ops)
  unfolding work_run deliveries claim
  work_run-Pays m acked q [] e ok = (e, λ i. omega arith)
  work_run-Pays m acked q (pushes value ∷ ops) e ok =
      let k = push-Keeps q value in
      let r = work_run-Pays m acked (push q value).0 ops (k.0 ∙ e) (push-IsQueue q value ok) in
      (r.0, λ i. omega (arith, k.1 i, r.1 i))
  work_run-Pays m acked q (claims worker now ∷ ops) e ok =
      let k = claim-Claimed q q.pending worker now refl ok in
      let r =
        work_run-Pays m acked (claim q worker now).0 ops (k.0 ∙ e)
          (claim-IsQueue q q.pending worker now refl ok) in
      (
        r.0,
        λ i. omega (
          arith,
          k.1 i,
          r.1 i,
          handed-total i (claim q worker now).1 (deliveries (claim q worker now).0 ops),
        ),
      )
  work_run-Pays m acked q (acks worker id ∷ ops) e ok =
      let k = ack-Acknowledged m acked q worker id e ok in
      let r =
        work_run-Pays m (taken_found worker acked (Assoc.get id q.in_flight)) (ack q worker id).0
          ops (k.0 ∙ e) (ack-IsQueue q worker id ok) in
      (r.0, λ i. omega (arith, k.1 i, r.1 i))
  work_run-Pays m acked q (nacks worker id ∷ ops) e ok =
      let k = nack-Keeps q worker id ok in
      let r =
        work_run-Pays m acked (nack q worker id).0 ops (k.0 ∙ e) (nack-IsQueue q worker id ok) in
      (r.0, λ i. omega (arith, k.1 i, r.1 i))
  work_run-Pays m acked q (reaps now ∷ ops) e ok =
      let k = reap_expired-Keeps q now ok in
      let r =
        work_run-Pays m acked (reap_expired q now).0 ops (k.0 ∙ e)
          (reap_expired-IsQueue q now ok) in
      (r.0, λ i. omega (arith, k.1 i, r.1 i))

-- No places, nothing; at most one place, at most the limit.
abbrev Capped : ℕ → ℕ → ℕ → Type 0
Capped m places n = (places ≡ 0 → n ≡ 0) × (places ≤ 1 → n ≤ m)

capped {ℓ} :
    {A : Type ℓ} (m i : ℕ) (f g : A → ℕ) (xs : List A)
    → All (λ x. g x ≤ m) xs
    → Capped m (total (λ x. hit i (f x)) xs) (total (λ x. spent i (f x) (g x)) xs)
capped m i f g [] all = ((λ _. refl), λ _. omega arith)
capped m i f g (x ∷ xs) all =
    let (zero_is, one_is) = capped m i f g xs all.1 in
    (λ h. ground (arith, all.0, zero_is, one_is), λ h. ground (arith, all.0, zero_is, one_is))

-- A property of what a map holds, entry by entry.
All-of_values {ℓ κ} :
    {V : Type ℓ} (P : V → Type κ) (m : List (ℕ × V))
    → Assoc.Distinct m
    → ((k : ℕ) (v : V) → Assoc.get k m ≡ some v → P v)
    → All (λ (e : ℕ × V). P e.1) m
unfolding Assoc.get
All-of_values P [] distinct h = tt
All-of_values P ((j, v) ∷ m) distinct h = (
  h j v (rw (==-self j) refl),
  All-of_values P m distinct.1 (λ k x e. h k x (elim (Bool-cases (equal j k)) [
    | inl same ↦
        let gone : Assoc.get k m ≡ none =
          subst (λ i. Assoc.get i m ≡ none) ((==_iff j k).0 same) distinct.0 in
        absurd (cc (gone, e))
    | inr other ↦ rw other e
  ])),
)

four_sum :
    (m a b c d na nb nc nd : ℕ)
    → Capped m a na
    → Capped m b nb
    → Capped m c nc
    → Capped m d nd
    → a + b + c + d ≤ 1
    → na + nb + nc + nd ≤ m
four_sum m a b c d na nb nc nd ha hb hc hd h =
    ground (arith, ha.0, ha.1, hb.0, hb.1, hc.0, hc.1, hd.0, hd.1)

unstarted {ℓ} :
    {W T : Type ℓ} (timeout max : ℕ) (q : WorkQueueCell W T)
    → new_work_queue_cell timeout max ≡ some q
    → (q.max_deliveries ≡ max) × ((i : ℕ) → attempts_at q i ≡ 0)
unfolding new_work_queue_cell
unstarted timeout max q e = elim (Bool-cases (leb timeout 0 || ltb max 1)) [
  | inl bad ↦ absurd (ground arith)
  | inr good ↦
      subst (λ x. (x.max_deliveries ≡ max) × ((i : ℕ) → attempts_at x i ≡ 0))
        (some_inj (rw (good, new_work_queue_cell) at e)) (refl, λ i. omega arith)
]

module _ {ℓ} {W T : Type ℓ} ⦃w : Comparable W⦄ where
  attempts_bound :
      (acked : List ℕ) (q : WorkQueueCell W T) (i : ℕ)
      → IsQueue q
      → Conserved acked q
      → attempts_at q i + released q.max_deliveries acked i ≤ q.max_deliveries
  attempts_bound acked q i ok v =
      four_sum q.max_deliveries _ _ _ _ _ _ _ _
        (capped q.max_deliveries i (λ (it : WorkQueueItem T). it.item_id) (λ it. it.attempts)
          q.pending (All-map q.pending (λ it few. omega (arith, few)) ok.waiting))
        (capped q.max_deliveries i (λ (e : ℕ × WorkQueueDelivery W T). e.1.item_id)
          (λ e. e.1.attempt) q.in_flight
          (All-of_values (λ (d : WorkQueueDelivery W T). d.attempt ≤ q.max_deliveries) q.in_flight
            ok.distinct (λ k d e. (ok.flying k d e).1)))
        (capped q.max_deliveries i (λ (l : WorkQueueDeadLetter T). l.item_id) (λ l. l.attempts)
          q.dead_letters (All-map q.dead_letters (λ l all. omega (arith, all)) ok.dead))
        (capped q.max_deliveries i (λ id. id) (λ _. q.max_deliveries) acked
          (All-of_In (λ _. q.max_deliveries ≤ q.max_deliveries) acked (λ id _. omega arith)))
        (ground (arith, v i))

  -- Over any calls on a new queue an item is handed out to workers at most as often as the limit on
  -- deliveries says, however its deliveries end. After them a pending item's own count of attempts is
  -- below the limit, that of a delivery in flight is at most the limit, and that of a dead letter is
  -- the limit; the map of deliveries has one entry for an id, each below the next id.
  pub deliveries_bounded :
      (timeout max : ℕ) (q : WorkQueueCell W T) (ops : List (WorkQueueOp W T)) (i : ℕ)
      → new_work_queue_cell timeout max ≡ some q
      → (total (hit i) (deliveries q ops) ≤ max) × IsQueue (work_run [] q ops).1
  deliveries_bounded timeout max q ops i e =
      let (limit, nothing) = unstarted timeout max q e in
      let ok : IsQueue q = unfold work_run in work_run-IsQueue timeout max q [] e in
      let ok' = work_run-IsQueue timeout max q ops e in
      let paid = work_run-Pays max [] q ops limit ok in
      let (same, pays) = paid in
      let v' = work_run-Conserved timeout max q ops e in
      let bound = attempts_bound (work_run [] q ops).0 (work_run [] q ops).1 i ok' v' in
      (
        omega (
          arith,
          nothing i,
          pays i,
          subst (λ m. attempts_at (work_run [] q ops).1 i + released m (work_run [] q ops).0 i ≤ m)
              same bound,
        ),
        ok',
      )
