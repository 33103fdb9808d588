-- ===== src/Queue/Fifo.antt =====
-- queue.go, `QueueCell`: runs of calls, the values that they push and pop, and the readers after
-- them.
use mathlib.Core.List.{append-nil, append_assoc}
use lazily_go.Base.{
  ◌&&◌, ◌+◌, ◌++◌, ◌-◌, ◌==◌, if◌then◌else◌, ◌∙◌, ◌∷◌, ◌≡◌, Bool, List, Option, [], ap, arith,
  false, if_elim, leb, length, ltb, none, refl, some, sym, true, ℕ,
}
use lazily_go.Queue.{
  QueueCell, QueuePushError, VecDequeStorage, close, invalidate_readers, new_queue_cell, peek,
  push_closed, push_full, push_ok, read_empty, read_full, read_head, read_len, storage_pop,
  storage_push, try_pop, try_push, QueuePopError, pop_closed, pop_elements, pop_empty, pop_is_ok,
  push_is_ok,
}
use lazily_go.Queue.Readers.{
  IsCoherent, close-IsCoherent, read_all, read_all-IsCoherent, try_pop-IsCoherent,
  try_push-IsCoherent,
}

-- The calls on a queue; `observes` reads its readers.
pub data QueueOp {ℓ} (T : Type ℓ) : Type ℓ where
  pushes : T → QueueOp T
  pops closes observes : QueueOp T

abbrev pub accepted {ℓ} : {T : Type ℓ} → T → QueuePushError → List T → List T
accepted v push_ok vs = v ∷ vs
accepted v push_full vs = vs
accepted v push_closed vs = vs

abbrev pub cons_some {ℓ} : {T : Type ℓ} → Option T → List T → List T
cons_some none vs = vs
cons_some (some v) vs = v ∷ vs

module _ {ℓ} {T : Type ℓ} where
  pub queue_step : QueueCell T → QueueOp T → QueueCell T
  queue_step q (pushes v) = (try_push q v).0
  queue_step q pops = (try_pop q).0
  queue_step q closes = close q
  queue_step q observes = read_all q

  pub queue_run : QueueCell T → List (QueueOp T) → QueueCell T
  queue_run q [] = q
  queue_run q (op ∷ ops) = queue_run (queue_step q op) ops

  -- The values that were pushed and not refused.
  pub pushed_in : QueueCell T → List (QueueOp T) → List T
  pushed_in q [] = []
  pushed_in q (pushes v ∷ ops) = accepted v (try_push q v).1 (pushed_in (try_push q v).0 ops)
  pushed_in q (pops ∷ ops) = pushed_in (try_pop q).0 ops
  pushed_in q (closes ∷ ops) = pushed_in (close q) ops
  pushed_in q (observes ∷ ops) = pushed_in (read_all q) ops

  -- The values that were popped.
  pub popped_out : QueueCell T → List (QueueOp T) → List T
  popped_out q [] = []
  popped_out q (pushes v ∷ ops) = popped_out (try_push q v).0 ops
  popped_out q (pops ∷ ops) = cons_some (try_pop q).1 (popped_out (try_pop q).0 ops)
  popped_out q (closes ∷ ops) = popped_out (close q) ops
  popped_out q (observes ∷ ops) = popped_out (read_all q) ops

  queue_step-IsCoherent :
      (q : QueueCell T) (op : QueueOp T) → IsCoherent q → IsCoherent (queue_step q op)
  unfolding queue_step
  queue_step-IsCoherent q (pushes v) c = try_push-IsCoherent q v c
  queue_step-IsCoherent q pops c = try_pop-IsCoherent q c
  queue_step-IsCoherent q closes c = close-IsCoherent q c
  queue_step-IsCoherent q observes c = read_all-IsCoherent q c

  queue_run-IsCoherent :
      (q : QueueCell T) (ops : List (QueueOp T)) → IsCoherent q → IsCoherent (queue_run q ops)
  unfolding queue_run
  queue_run-IsCoherent q [] c = c
  queue_run-IsCoherent q (op ∷ ops) c =
      queue_run-IsCoherent (queue_step q op) ops (queue_step-IsCoherent q op c)

  new-IsCoherent : (s : VecDequeStorage T) → IsCoherent (new_queue_cell s)
  unfolding new_queue_cell
  new-IsCoherent s = record { head = refl; len = refl; empty = refl; full = refl; closed = refl }

  -- The bound that the cell keeps is that of its storage.
  abbrev Mirrored : QueueCell T → Type 0
  Mirrored q = (q.bounded ≡ ltb 0 q.storage.capacity) × (q.capacity ≡ q.storage.capacity)

  told-Mirrored :
      (told head_changed : Bool) (q : QueueCell T) (s : VecDequeStorage T) (before after : ℕ)
      → s.capacity ≡ q.storage.capacity
      → Mirrored q
      → let q' : QueueCell T = record q { storage = s } in
        Mirrored (if told then invalidate_readers q' before after head_changed else q')
  unfolding invalidate_readers
  told-Mirrored true head_changed q s before after e m = (rw e m.0, rw e m.1)
  told-Mirrored false head_changed q s before after e m = (rw e m.0, rw e m.1)

  capacity-storage_push :
      (s : VecDequeStorage T) (v : T) → (storage_push s v).0.capacity ≡ s.capacity
  unfolding storage_push
  capacity-storage_push s v = ground arith

  capacity-pop_elements :
      (s : VecDequeStorage T) (xs : List T) → (pop_elements s xs).0.capacity ≡ s.capacity
  unfolding pop_elements
  capacity-pop_elements s [] = refl
  capacity-pop_elements s (x ∷ xs) = refl

  queue_step-Mirrored : (q : QueueCell T) (op : QueueOp T) → Mirrored q → Mirrored (queue_step q op)
  unfolding queue_step try_push try_pop storage_pop close
  queue_step-Mirrored q (pushes v) m =
      told-Mirrored (push_is_ok (storage_push q.storage v).1) (length q.storage.elements == 0) q
        (storage_push q.storage v).0 (length q.storage.elements) (length q.storage.elements + 1)
        (capacity-storage_push q.storage v) m
  queue_step-Mirrored q pops m =
      told-Mirrored (pop_is_ok (storage_pop q.storage).2) true q (storage_pop q.storage).0
        (length q.storage.elements) (length q.storage.elements - 1)
        (capacity-pop_elements q.storage q.storage.elements) m
  queue_step-Mirrored q closes m = if_elim Mirrored q.storage.closed (λ _. m) (λ _. m)
  queue_step-Mirrored q observes m = unfold read_all in m

  queue_run-Mirrored :
      (q : QueueCell T) (ops : List (QueueOp T)) → Mirrored q → Mirrored (queue_run q ops)
  unfolding queue_run
  queue_run-Mirrored q [] m = m
  queue_run-Mirrored q (op ∷ ops) m =
      queue_run-Mirrored (queue_step q op) ops (queue_step-Mirrored q op m)

  new-Mirrored : (s : VecDequeStorage T) → Mirrored (new_queue_cell s)
  unfolding new_queue_cell
  new-Mirrored s = (refl, refl)

  -- After any calls on a new queue, with its readers cached at any points between them, each reader
  -- returns what the storage holds now: the first element, the length, whether it is empty, whether it
  -- is bounded and holds as many elements as its capacity, and whether it is closed.
  pub queue_run-readers :
      (s : VecDequeStorage T) (ops : List (QueueOp T))
      → (let q = queue_run (new_queue_cell s) ops in
          ((read_head q).1 ≡ peek q.storage)
          × ((read_len q).1 ≡ length q.storage.elements)
          × ((read_empty q).1 ≡ (length q.storage.elements == 0))
          × ((read_full q).1
              ≡ (ltb 0 q.storage.capacity && leb q.storage.capacity (length q.storage.elements)))
          × (q.closed.value ≡ q.storage.closed))
  unfolding read_head read_len read_empty read_full
  queue_run-readers s ops =
      let c = queue_run-IsCoherent (new_queue_cell s) ops (new-IsCoherent s) in
      let m = queue_run-Mirrored (new_queue_cell s) ops (new-Mirrored s) in
      (c.head, c.len, c.empty, rw (← m.0, ← m.1) c.full, c.closed)

  elements-try_push :
      (q : QueueCell T) (v : T) (vs : List T)
      → (try_push q v).0.storage.elements ++ vs
        ≡ q.storage.elements ++ accepted v (try_push q v).1 vs
  unfolding try_push storage_push invalidate_readers
  elements-try_push q v vs =
      if_elim P q.storage.closed (λ _. refl)
        (λ _.
          if_elim P (ltb 0 q.storage.capacity && leb q.storage.capacity (length q.storage.elements))
            (λ _. refl) (λ _. append_assoc q.storage.elements (v ∷ []) vs))
    where
      P : VecDequeStorage T × QueuePushError → Type ℓ
      P (s, err) =
          (if push_is_ok err
              then invalidate_readers (record q { storage = s }) (length q.storage.elements)
                  (length q.storage.elements + 1) (length q.storage.elements == 0)
              else record q { storage = s }).storage.elements
            ++ vs
          ≡ q.storage.elements ++ accepted v err vs

  elements-try_pop :
      (q : QueueCell T)
      → cons_some (try_pop q).1 (try_pop q).0.storage.elements ≡ q.storage.elements
  unfolding try_pop storage_pop invalidate_readers
  elements-try_pop q = go q.storage.elements refl
    where
      P : VecDequeStorage T × Option T × QueuePopError → Type ℓ
      P (s, v, err) =
          cons_some v
            (if pop_is_ok err
              then invalidate_readers (record q { storage = s }) (length q.storage.elements)
                  (length q.storage.elements - 1) true
              else record q { storage = s }).storage.elements
          ≡ q.storage.elements

      failed : (b : Bool) → P (q.storage, none, if b then pop_closed else pop_empty)
      failed true = refl
      failed false = refl

      go : (xs : List T) → q.storage.elements ≡ xs → P (pop_elements q.storage xs)
      go [] e = failed q.storage.closed
      go (x ∷ rest) e = sym e

  elements-close : (q : QueueCell T) → (close q).storage.elements ≡ q.storage.elements
  unfolding close
  elements-close q =
      if_elim (λ (x : QueueCell T). x.storage.elements ≡ q.storage.elements) q.storage.closed
        (λ _. refl) (λ _. refl)

  cons_some-append : (v : Option T) (xs ys : List T) → cons_some v xs ++ ys ≡ cons_some v (xs ++ ys)
  cons_some-append none xs ys = refl
  cons_some-append (some v) xs ys = refl

  -- Over any calls the values come out in the order in which they went in, and none is lost or made:
  -- what was popped, and then what the queue still holds, is what it held, and then what was pushed
  -- without being refused.
  pub queue_run-fifo :
      (q : QueueCell T) (ops : List (QueueOp T))
      → popped_out q ops ++ (queue_run q ops).storage.elements
        ≡ q.storage.elements ++ pushed_in q ops
  unfolding queue_run queue_step popped_out pushed_in read_all
  queue_run-fifo q [] = sym (append-nil q.storage.elements)
  queue_run-fifo q (pushes v ∷ ops) =
      queue_run-fifo (try_push q v).0 ops ∙ elements-try_push q v (pushed_in (try_push q v).0 ops)
  queue_run-fifo q (pops ∷ ops) =
      cons_some-append (try_pop q).1 (popped_out (try_pop q).0 ops) _
      ∙ ap (cons_some (try_pop q).1) (queue_run-fifo (try_pop q).0 ops)
      ∙ sym (cons_some-append (try_pop q).1 (try_pop q).0.storage.elements _)
      ∙ ap (λ xs. xs ++ pushed_in (try_pop q).0 ops) (elements-try_pop q)
  queue_run-fifo q (closes ∷ ops) =
      queue_run-fifo (close q) ops ∙ ap (λ xs. xs ++ pushed_in (close q) ops) (elements-close q)
  queue_run-fifo q (observes ∷ ops) = queue_run-fifo (read_all q) ops
