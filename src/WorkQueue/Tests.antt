-- ===== src/WorkQueue/Tests.antt =====
-- A work queue at concrete calls.
use lazily_go.Base.{
  ◌∷◌, ◌≡◌, ◌≤◌, List, [], refl, some, total, ℕ, ℕ_comparable, bool_comparable, option_comparable,
}
use lazily_go.WorkQueue.{WorkQueueCell, new_work_queue_cell}
use lazily_go.WorkQueue.Bounds.{IsQueue}
use lazily_go.WorkQueue.Conserve.{Conserved}
use lazily_go.WorkQueue.Deliveries.{deliveries, deliveries_bounded}
use lazily_go.WorkQueue.Places.{hit}
use lazily_go.WorkQueue.Runs.{
  WorkQueueOp, acks, claims, nacks, pushes, reaps, work_run, work_run-Conserved,
}

abbrev empty : WorkQueueCell ℕ ℕ
empty = record {
  visibility_timeout = 5;
  max_deliveries = 2;
  pending = [];
  in_flight = [];
  dead_letters = [];
  next_item_id = 0;
  next_delivery_id = 0;
  told = record { pending_len = 0; is_empty = 0; in_flight_len = 0; dead_letter_len = 0 };
}

-- The first item is acknowledged, the second fails twice.
abbrev calls : List (WorkQueueOp ℕ ℕ)
calls =
    pushes 70
    ∷ pushes 71
    ∷ claims 1 10
    ∷ claims 2 10
    ∷ acks 1 0
    ∷ acks 1 1
    ∷ nacks 2 1
    ∷ claims 1 20
    ∷ reaps 26
    ∷ []

new_empty : new_work_queue_cell 5 2 ≡ some empty
unfolding new_work_queue_cell
new_empty = refl

work_run-Conserved_example : Conserved (work_run [] empty calls).0 (work_run [] empty calls).1
work_run-Conserved_example = work_run-Conserved 5 2 empty calls new_empty

deliveries_bounded_example :
    (total (hit 1) (deliveries empty calls) ≤ 2) × IsQueue (work_run [] empty calls).1
deliveries_bounded_example = deliveries_bounded 5 2 empty calls 1 new_empty
