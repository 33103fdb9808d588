-- ===== src/Sync/Driver.antt =====
-- reliable_sync.go, `SyncDriver`: the loop over one peer connection. The sink is a state and what
-- `Send` does to it; the source is the list of the results of `Recv`; the clock is the `now` of a
-- tick; the snapshot provider and the codec of the outbox are parameters.
pub mod Safe
pub mod Runs
pub mod Live
pub mod Folds
use lazily_go.Base.{
  ◌+◌, ◌++◌, if◌then◌else◌, ◌∷◌, Bool, List, Option, [], false, length, ltb, none, some, true, ℕ,
}
use lazily_go.Sync.{
  Decision, IpcMessage, ResyncCoordinator, ack, apply, crdt_sync, delta, ignore, ingest,
  new_coordinator, outbox_ack, request_snapshot, resync_request, snapshot,
}
use lazily_go.Sync.Outbox.{Outbox, ack_through, acked, append, replay_from, retained_epochs}
use lazily_go.Base.Word.{zero_i64}

-- A result of `Recv`: a frame, an empty queue, or a read failure.
pub data Received {ℓ} (P : Type ℓ) : Type ℓ where
  frame : IpcMessage P → Received P
  empty failed_read : Received P

-- `OutboxEntry`.
abbrev pub OutboxEntry {ℓ} : Type ℓ → Type ℓ
OutboxEntry P = ℕ × IpcMessage P

-- `SyncDriver`, without its sink, source, clock and provider.
pub record SyncDriver {ℓ} (P : Type ℓ) : Type ℓ where
  pub outbox : Outbox
  pub coordinator : ResyncCoordinator
  pub pending : List (OutboxEntry P)
  pub peer_acked_through : ℕ
  pub ack_owed : Bool
  pub replay_pending : Bool
  pub stalled_since : Option ℕ

-- `Progress`.
pub record Progress {ℓ} (P : Type ℓ) : Type ℓ where
  pub sent : ℕ
  pub applied : List (IpcMessage P)
  pub resync_requested : Bool
  pub snapshots_served : ℕ
  pub peer_acked : ℕ
  pub retained : ℕ

module _ {ℓ} {P : Type ℓ} where
  abbrev pub no_progress : Progress P
  no_progress = record {
    sent = 0;
    applied = [];
    resync_requested = false;
    snapshots_served = 0;
    peer_acked = zero_i64;
    retained = 0;
  }

  -- `NewSyncDriverWithEpoch`.
  unfoldable pub new_driver : Outbox → ℕ → SyncDriver P
  unfolding new_coordinator
  new_driver outbox last_epoch = record {
    outbox = outbox;
    coordinator = new_coordinator last_epoch;
    pending = [];
    peer_acked_through = zero_i64;
    ack_owed = false;
    replay_pending = false;
    stalled_since = none;
  }

  -- `Enqueue`.
  unfoldable pub enqueue : SyncDriver P → ℕ → IpcMessage P → SyncDriver P
  enqueue d epoch msg = record d { pending = d.pending ++ (epoch, msg) ∷ [] }

  -- `OnReconnect`.
  unfoldable pub on_reconnect : SyncDriver P → SyncDriver P
  on_reconnect d = record d { replay_pending = true; ack_owed = true; stalled_since = none }

  -- `stall`.
  abbrev pub stall : SyncDriver P → ℕ → SyncDriver P
  stall d now = record d { stalled_since = some now }

-- A driver at work: the driver, the sink and the progress of the tick.
abbrev pub Work {ℓ κ} : Type ℓ → Type κ → Type (ℓ ⊔ κ)
Work P K = SyncDriver P × K × Progress P

module _ {ℓ κ} {P : Type ℓ} {K : Type κ} (send : K → IpcMessage P → K × Bool)
    (provide : ℕ → IpcMessage P) (encode : IpcMessage P → Option (List ℕ))
    (decode : List ℕ → Option (IpcMessage P)) where
  -- The loop of the replay.
  pub replay_all : ℕ → Work P K → List (OutboxEntry P) → Work P K
  replay_all now w [] = w
  replay_all now (d, k, p) ((epoch, msg) ∷ entries) =
      let (k', ok) = send k msg in
      let rest = replay_all now (d, k', record p { sent = p.sent + 1 }) entries in
      if ok then rest else (record (stall d now) { replay_pending = true }, k', p)

  -- The first step of `Tick`.
  unfoldable pub replay : ℕ → Work P K → Work P K
  unfolding replay_all replay_from
  replay now (d, k, p) =
      let (outbox, entries) = replay_from encode decode d.outbox d.peer_acked_through in
      if d.replay_pending
      then replay_all now (record d { replay_pending = false; outbox = outbox }, k, p) entries
      else (d, k, p)

  -- The loop of the drain, over the pending entries.
  pub drain_all : ℕ → Work P K → List (OutboxEntry P) → Work P K
  unfolding append
  drain_all now (d, k, p) [] = (record d { pending = [] }, k, p)
  drain_all now (d, k, p) ((epoch, msg) ∷ entries) =
      let (k', ok) = send k msg in
      let d' = record d { outbox = append encode decode d.outbox epoch msg; pending = entries } in
      let rest = drain_all now (d', k', record p { sent = p.sent + 1 }) entries in
      if ok then rest else (stall d' now, k', p)

  -- The second step: a stalled driver drains nothing.
  unfoldable pub drain : ℕ → Work P K → Work P K
  unfolding drain_all
  drain now (d, k, p) = elim d.stalled_since [
    | none ↦ drain_all now (d, k, p) d.pending
    | some since ↦ (d, k, p)
  ]

  -- A frame that goes to the coordinator, once it has decided.
  pub decided : ℕ → Work P K → IpcMessage P → Decision → Work P K
  decided now (d, k, p) msg (c, apply, from_epoch) = (
    record d { coordinator = c; ack_owed = true },
    k,
    record p { applied = p.applied ++ msg ∷ [] },
  )
  decided now (d, k, p) msg (c, request_snapshot, from_epoch) =
      let (k', ok) = send k (resync_request from_epoch) in
      let d' = record d { coordinator = c } in
      if ok then (d', k', record p { resync_requested = true }) else (stall d' now, k', p)
  decided now (d, k, p) msg (c, ignore, from_epoch) = (record d { coordinator = c }, k, p)

  -- One inbound frame of the third step.
  pub handle : ℕ → Work P K → IpcMessage P → Work P K
  unfolding decided ingest ack_through
  handle now (d, k, p) (outbox_ack through_epoch) = (
    record d {
      peer_acked_through =
          if ltb d.peer_acked_through through_epoch then through_epoch else d.peer_acked_through;
      outbox = ack_through d.outbox through_epoch;
    },
    k,
    p,
  )
  handle now (d, k, p) (resync_request from_epoch) =
      let (k', ok) = send k (provide from_epoch) in
      if ok
      then (d, k', record p { snapshots_served = p.snapshots_served + 1 })
      else (stall d now, k', p)
  handle now (d, k, p) (crdt_sync batch) =
      (d, k, record p { applied = p.applied ++ crdt_sync batch ∷ [] })
  handle now (d, k, p) (snapshot epoch state) =
      decided now (d, k, p) (snapshot epoch state) (ingest d.coordinator (snapshot epoch state))
  handle now (d, k, p) (delta base_epoch epoch ops) =
      decided now (d, k, p) (delta base_epoch epoch ops)
        (ingest d.coordinator (delta base_epoch epoch ops))

  -- The third step, and whether every read went well.
  pub receive : ℕ → Work P K → List (Received P) → Work P K × Bool
  unfolding handle
  receive now w [] = (w, true)
  receive now w (frame msg ∷ inbound) = receive now (handle now w msg) inbound
  receive now w (empty ∷ inbound) = (w, true)
  receive now w (failed_read ∷ inbound) = (w, false)

  -- The fourth step.
  unfoldable pub advertise : Work P K → Work P K
  unfolding ack
  advertise (d, k, p) =
      let (k', ok) = send k (ack d.coordinator) in
      if d.ack_owed then (if ok then record d { ack_owed = false } else d, k', p) else (d, k, p)

  -- The last lines of `Tick`.
  unfoldable pub report : Work P K → Work P K
  unfolding retained_epochs
  report (d, k, p) = (
    record d { outbox = acked d.outbox },
    k,
    record p { peer_acked = d.peer_acked_through; retained = length (retained_epochs d.outbox) },
  )

  -- What `Tick` returns: the driver, the sink, and the progress, or none where the source failed.
  pub finish_tick : Bool → Work P K → SyncDriver P × K × Option (Progress P)
  unfolding advertise report
  finish_tick true w = let (d, k, p) = report (advertise w) in (d, k, some p)
  finish_tick false (d, k, p) = (d, k, none)

  -- `Tick`.
  unfoldable pub tick :
      ℕ → SyncDriver P → K → List (Received P) → SyncDriver P × K × Option (Progress P)
  unfolding replay drain receive finish_tick
  tick now d k inbound =
      let (w, went_well) = receive now (drain now (replay now (d, k, no_progress))) inbound in
      finish_tick went_well w
