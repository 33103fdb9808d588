-- ===== src/WorkQueue/Places.antt =====
-- work_queue.go: where an item is, counted over the pending items, the deliveries in flight and the dead
-- letters.
use lazily_go.Base.{
  ◌+◌, ◌==◌, if◌then◌else◌, ◌∷◌, ◌≡◌, Bool-cases, Comparable, List, [], ap, arith, equal, if_elim,
  inl, inr, leb, none, refl, some, some_inj, subst, total, total-append, ℕ, ℕ_comparable,
  bool_comparable, option_comparable,
}
use lazily_go.WorkQueue.{
  WorkQueueCell, WorkQueueDeadLetter, WorkQueueDeadLetterReason, WorkQueueDelivery, WorkQueueItem,
  fail,
}
use lazily_go.Base.Assoc

module _ {ℓ κ} {K : Type ℓ} {V : Type κ} ⦃c : Comparable K⦄ where
  pub total-put_new :
      (f : V → ℕ) (k : K) (v : V) (m : List (K × V))
      → Assoc.get k m ≡ none
      → total (λ e. f e.1) (Assoc.put k v m) ≡ total (λ e. f e.1) m + f v
  unfolding Assoc.get Assoc.put
  total-put_new f k v [] new = omega arith
  total-put_new f k v ((j, w) ∷ m) new =
      if_elim
        (λ (m' : List (K × V)). total (λ e. f e.1) m' ≡ f w + total (λ (e : K × V). f e.1) m + f v)
        (equal j k) (λ same. ground arith)
        (λ other. omega (arith, total-put_new f k v m (ground arith)))

  delete_new : (k : K) (m : List (K × V)) → Assoc.get k m ≡ none → Assoc.delete k m ≡ m
  unfolding Assoc.get Assoc.delete
  delete_new k [] new = refl
  delete_new k ((j, w) ∷ m) new =
      if_elim (λ m'. m' ≡ (j, w) ∷ m) (equal j k) (λ same. ground arith)
        (λ other. ap (◌∷◌ (j, w)) (delete_new k m (ground arith)))

  pub total-delete :
      (f : V → ℕ) (k : K) (v : V) (m : List (K × V))
      → Assoc.Distinct m
      → Assoc.get k m ≡ some v
      → total (λ e. f e.1) (Assoc.delete k m) + f v ≡ total (λ e. f e.1) m
  unfolding Assoc.get Assoc.delete
  total-delete f k v [] distinct e = cc
  total-delete f k v ((j, w) ∷ m) distinct e = elim (Bool-cases (equal j k)) [
    | inl same ↦
        let here : w ≡ v = some_inj (rw (same, Assoc.get) at e) in
        let gone =
          delete_new k m (subst (λ x. Assoc.get x m ≡ none) ((c.eq_iff j k).0 same) distinct.0) in
        rw (same, gone) (rw here (omega arith))
    | inr other ↦
        let later : Assoc.get k m ≡ some v = rw (other, Assoc.get) at e in
        rw other (omega (arith, total-delete f k v m distinct.1 later))
  ]

-- 1 for the item with this id.
abbrev pub hit : ℕ → ℕ → ℕ
hit i id = if i == id then 1 else 0

module _ {ℓ} {W T : Type ℓ} where
  -- How often the item is pending, in flight or dead.
  abbrev pub places : WorkQueueCell W T → ℕ → ℕ
  places q i =
      total (λ (it : WorkQueueItem T). hit i it.item_id) q.pending
      + total (λ (e : ℕ × WorkQueueDelivery W T). hit i e.1.item_id) q.in_flight
      + total (λ (l : WorkQueueDeadLetter T). hit i l.item_id) q.dead_letters

  pub places-fail :
      (q : WorkQueueCell W T) (d : WorkQueueDelivery W T) (r : WorkQueueDeadLetterReason) (i : ℕ)
      → places (fail q d r) i ≡ places q i + hit i d.item_id
  unfolding fail
  places-fail q d r i =
      if_elim (λ x. places x i ≡ places q i + hit i d.item_id) (leb q.max_deliveries d.attempt)
        (λ _.
          omega
            (arith, total-append (λ (l : WorkQueueDeadLetter T). hit i l.item_id) q.dead_letters _))
        (λ _. omega (arith, total-append (λ (it : WorkQueueItem T). hit i it.item_id) q.pending _))
