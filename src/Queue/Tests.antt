-- ===== src/Queue/Tests.antt =====
-- A bounded queue at concrete calls.
use lazily_go.Base.{
  ◌&&◌, ◌++◌, ◌==◌, ◌∷◌, ◌≡◌, List, [], false, leb, length, ltb, ℕ, ℕ_comparable, bool_comparable,
  option_comparable,
}
use lazily_go.Queue.{
  QueueCell, VecDequeStorage, new_queue_cell, peek, read_empty, read_full, read_head, read_len,
}
use lazily_go.Queue.Fifo.{
  QueueOp, closes, observes, popped_out, pops, pushed_in, pushes, queue_run, queue_run-fifo,
  queue_run-readers,
}

abbrev two : VecDequeStorage ℕ
two = record { elements = []; capacity = 2; closed = false }

-- The third push is refused, and the last one too.
abbrev calls : List (QueueOp ℕ)
calls =
    pushes 7
    ∷ observes
    ∷ pushes 8
    ∷ pushes 9
    ∷ pops
    ∷ observes
    ∷ pushes 10
    ∷ closes
    ∷ pushes 11
    ∷ pops
    ∷ []

abbrev after : QueueCell ℕ
after = queue_run (new_queue_cell two) calls

queue_run-readers_example :
    (let q = after in
      ((read_head q).1 ≡ peek q.storage)
      × ((read_len q).1 ≡ length q.storage.elements)
      × ((read_empty q).1 ≡ (length q.storage.elements == 0))
      × ((read_full q).1
          ≡ (ltb 0 q.storage.capacity && leb q.storage.capacity (length q.storage.elements)))
      × (q.closed.value ≡ q.storage.closed))
queue_run-readers_example = queue_run-readers two calls

queue_run-fifo_example :
    popped_out (new_queue_cell two) calls ++ after.storage.elements
    ≡ (new_queue_cell two).storage.elements ++ pushed_in (new_queue_cell two) calls
queue_run-fifo_example = queue_run-fifo (new_queue_cell two) calls
