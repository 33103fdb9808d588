-- ===== src/Sync/Tests.antt =====
-- reliable_sync.go and durable_outbox_store.go: runs, and the theorems on concrete frames.
use lazily_go.Base.{
  ◌+◌, ◌++◌, ◌<◌, ◌↔◌, ◌∷◌, ◌≡◌, Bool, In, In-append_left, In-append_right, List, Option, [], ap,
  arith, false, inl, inr, none, refl, some, suc, sym, true, zero, ℕ, ℕ_comparable, bool_comparable,
  option_comparable,
}
use lazily_go.Sync.{
  IpcMessage, ResyncCoordinator, crdt_sync, delta, outbox_ack, resync_request, snapshot, ignore,
  ingest, new_coordinator,
}
use lazily_go.Sync.Resync.{
  Contiguous, at_end, ingest_all, ingest_all-Contiguous, next, replay_converges,
}
use lazily_go.Sync.Outbox.Refines.{
  Codec, OutboxOp, acks, appends, contract_run, new_contract, outbox_run, outbox_run-replays,
}
use lazily_go.Base.Word.{zero_i64, max_i64}
use lazily_go.Base.Sort.{sort}
use lazily_go.Base.Assoc
use lazily_go.Sync.Outbox.{ack_through, append, new_outbox, new_store, replay_from}
use lazily_go.Sync.Driver.{
  OutboxEntry, Progress, SyncDriver, empty, enqueue, failed_read, frame, new_driver, on_reconnect,
  tick,
}
use lazily_go.Sync.Driver.Safe.{Held, tick-Held}
use lazily_go.Sync.Driver.Runs.{HeldBy, drive, enqueues, ticks}
use lazily_go.Sync.Driver.Live.{Sink, reconnect-delivers}
use lazily_go.Sync.Driver.Folds.{data_frames, failed_read-loses, tick-Contiguous}
use lazily_go.Sync.Liveness.{
  OrSet, add_tag, has_tag, is_present, new_or_set, or_join, or_join-converges, remove_observed,
}

-- Deltas from epoch 10 on, and the coordinator that stands at 11.
abbrev first_delta : IpcMessage ℕ
first_delta = delta 10 11 7

abbrev second_delta : IpcMessage ℕ
second_delta = delta 11 14 8

abbrev late_delta : IpcMessage ℕ
late_delta = delta 20 21 9

abbrev at_eleven : ResyncCoordinator
at_eleven = record { last_epoch = 11; resyncing = false }

-- A gap is asked for once; the replay closes it.
gap_run :
    ingest_all at_eleven (late_delta ∷ late_delta ∷ first_delta ∷ second_delta ∷ [])
    ≡ (record { last_epoch = 14; resyncing = false }, second_delta ∷ [])
unfolding ingest_all
gap_run = refl

ingest_all-Contiguous_example :
    Contiguous 11
      (ingest_all at_eleven (late_delta ∷ second_delta ∷ [])).1
      (ingest_all at_eleven (late_delta ∷ second_delta ∷ [])).0.last_epoch
ingest_all-Contiguous_example =
    ingest_all-Contiguous at_eleven (late_delta ∷ second_delta ∷ []) (omega arith)
      (omega arith, (omega arith, tt))

replay_converges_example :
    ((ingest_all at_eleven (first_delta ∷ second_delta ∷ [])).1 ≡ second_delta ∷ [])
    × ((ingest_all at_eleven (first_delta ∷ second_delta ∷ [])).0.last_epoch ≡ 14)
replay_converges_example =
    replay_converges at_eleven 10 14 (first_delta ∷ []) (second_delta ∷ [])
      (next (omega arith) at_end) (next (omega arith) at_end) (omega arith)

-- A codec of frames.
abbrev encode : IpcMessage ℕ → Option (List ℕ)
encode (snapshot e s) = some (0 ∷ e ∷ s ∷ [])
encode (delta a b ops) = some (1 ∷ a ∷ b ∷ ops ∷ [])
encode (crdt_sync batch) = some (2 ∷ batch ∷ [])
encode (resync_request e) = some (3 ∷ e ∷ [])
encode (outbox_ack e) = some (4 ∷ e ∷ [])

abbrev decode_rest : ℕ → List ℕ → Option (IpcMessage ℕ)
decode_rest zero (e ∷ s ∷ []) = some (snapshot e s)
decode_rest (suc zero) (a ∷ b ∷ ops ∷ []) = some (delta a b ops)
decode_rest (suc (suc zero)) (batch ∷ []) = some (crdt_sync batch)
decode_rest (suc (suc (suc zero))) (e ∷ []) = some (resync_request e)
decode_rest (suc (suc (suc (suc zero)))) (e ∷ []) = some (outbox_ack e)
decode_rest tag fields = none

abbrev decode : List ℕ → Option (IpcMessage ℕ)
decode [] = none
decode (tag ∷ fields) = decode_rest tag fields

codec : Codec encode decode
codec (snapshot e s) = (_, refl, refl)
codec (delta a b ops) = (_, refl, refl)
codec (crdt_sync batch) = (_, refl, refl)
codec (resync_request e) = (_, refl, refl)
codec (outbox_ack e) = (_, refl, refl)

-- Appended at 11 and 14, and at 14 again; acknowledged through 11.
abbrev outbox_ops : List (OutboxOp (IpcMessage ℕ))
outbox_ops =
    appends zero_i64 first_delta
    ∷ appends (zero_i64 + 14) first_delta
    ∷ appends (zero_i64 + 14) second_delta
    ∷ acks (zero_i64 + 11)
    ∷ []

replayed :
    (replay_from encode decode
      (outbox_run encode decode (new_outbox new_store) outbox_ops)
      zero_i64).1
    ≡ (zero_i64 + 14, second_delta) ∷ []
unfolding replay_from outbox_run new_outbox append ack_through Assoc.get Assoc.put sort
replayed = refl

outbox_run-replays_example :
    In
      (zero_i64 + 14, second_delta)
      (replay_from encode decode
        (outbox_run encode decode (new_outbox new_store) outbox_ops)
        zero_i64).1
    ↔ ((zero_i64 < zero_i64 + 14)
        × ((contract_run new_contract outbox_ops).through < zero_i64 + 14)
        × ((contract_run new_contract outbox_ops).last (zero_i64 + 14) ≡ some second_delta))
outbox_run-replays_example =
    outbox_run-replays encode decode outbox_ops zero_i64 (zero_i64 + 14) second_delta codec

-- A sink that keeps what it takes.
abbrev send : List (IpcMessage ℕ) → IpcMessage ℕ → List (IpcMessage ℕ) × Bool
send k m = (k ++ m ∷ [], true)

abbrev provide : ℕ → IpcMessage ℕ
provide e = snapshot e 0

abbrev Up : List (IpcMessage ℕ) → Type 0
Up k = Unit

abbrev Heard : List (IpcMessage ℕ) → IpcMessage ℕ → Type 0
Heard k m = In m k

keeping_sink : Sink send Up Heard
keeping_sink = record {
  takes = λ k m up. refl;
  stays_up = λ k m up. tt;
  hears = λ k m up. In-append_right m k (m ∷ []) (inl refl);
  keeps = λ k m x h. In-append_left x k (m ∷ []) h;
}

-- A driver at epoch 11 with a frame to send.
abbrev driver : SyncDriver ℕ
driver = enqueue (new_driver (new_outbox new_store) 11) (zero_i64 + 14) second_delta

driver_holds : HeldBy send provide encode decode driver (zero_i64 + 14) second_delta
unfolding enqueue new_driver new_outbox
driver_holds = record {
  kept = inl (inl refl);
  level = refl;
  unacked = omega arith;
  unproved = omega arith;
  alone = λ other i. elim i [
    | inl e ↦ sym (ap (λ (x : OutboxEntry ℕ). x.1) e)
    | inr nothing ↦ elim nothing [ ]
  ];
}

tick-Held_example :
    let d =
      (tick send provide encode decode 5 driver [] (frame first_delta ∷ failed_read ∷ [])).0 in
    Held send provide encode decode d.outbox d.pending d.peer_acked_through
      (zero_i64 + 14)
      second_delta
tick-Held_example =
    tick-Held send provide encode decode 5 driver [] (frame first_delta ∷ failed_read ∷ [])
      (zero_i64 + 14) second_delta codec tt driver_holds

reconnect-delivers_example :
    let (d', k') =
      drive send provide encode decode driver []
        (ticks 5 (frame first_delta ∷ failed_read ∷ []) ∷ enqueues 0 first_delta ∷ []) in
    In second_delta (tick send provide encode decode 6 (on_reconnect d') k' (empty ∷ [])).1
reconnect-delivers_example =
    reconnect-delivers send provide encode decode Up Heard keeping_sink driver []
      (ticks 5 (frame first_delta ∷ failed_read ∷ []) ∷ enqueues 0 first_delta ∷ []) 6
      (zero_i64 + 14) (empty ∷ []) second_delta codec (tt, ((λ e. absurd (omega arith)), tt))
      driver_holds tt

stands : driver.coordinator.last_epoch ≡ 11
unfolding enqueue new_driver new_coordinator
stands = refl

small : driver.coordinator.last_epoch < max_i64
small = omega (arith, stands)

tick-Contiguous_example :
    let (d', _, result) =
      tick send provide encode decode 5 driver []
        (frame first_delta ∷ frame second_delta ∷ frame (crdt_sync 3) ∷ empty ∷ []) in
    (p : Progress ℕ) × (result ≡ some p)
    × Contiguous driver.coordinator.last_epoch (data_frames p.applied) d'.coordinator.last_epoch
tick-Contiguous_example =
    tick-Contiguous send provide encode decode 5 driver []
      (frame first_delta ∷ frame second_delta ∷ frame (crdt_sync 3) ∷ empty ∷ []) tt small
      (omega arith, (omega arith, tt))

failed_read-loses_example :
    let (d', _, result) =
      tick send provide encode decode 5 driver [] (frame second_delta ∷ failed_read ∷ []) in
    (result ≡ none)
    × (d'.coordinator.last_epoch ≡ 14)
    × (d'.ack_owed ≡ true)
    × (ingest d'.coordinator second_delta ≡ (d'.coordinator, ignore, zero_i64))
failed_read-loses_example =
    failed_read-loses send provide encode decode 5 driver [] 11 14 8 [] stands (omega arith)
      (omega arith)

-- Two editors: one removed the tag 4 it saw the other add, and the other added 5 since.
abbrev left_set : OrSet
left_set = record { adds = 5 ∷ 4 ∷ []; removes = [] }

abbrev right_set : OrSet
right_set = record { adds = 4 ∷ []; removes = 4 ∷ [] }

left_set-built : add_tag (add_tag new_or_set 4) 5 ≡ left_set
unfolding add_tag
left_set-built = refl

right_set-built : remove_observed (add_tag new_or_set 4) (4 ∷ []) ≡ right_set
unfolding add_tag remove_observed
right_set-built = refl

or_join-converges_example :
    (is_present (or_join left_set right_set) ≡ is_present (or_join right_set left_set))
    × (is_present (or_join (or_join left_set right_set) left_set)
        ≡ is_present (or_join left_set (or_join right_set left_set)))
    × (is_present (or_join (or_join left_set right_set) right_set)
        ≡ is_present (or_join left_set right_set))
    × ((tag : ℕ)
        → has_tag tag left_set.removes ≡ false
        → has_tag tag right_set.removes ≡ false
        → is_present (or_join (add_tag left_set tag) right_set) ≡ true)
or_join-converges_example = or_join-converges left_set right_set left_set
