-- ===== src/Sync.antt =====
-- reliable_sync.go, the frames of ipc.go that it reads, and the receiver side: `ResyncCoordinator`.
-- The payload of a frame (`Ops`, the nodes of a snapshot, a CRDT batch) is opaque. An `Epoch` is an
-- `int64`, written as in Base/Word.
pub mod Resync
pub mod Outbox
pub mod Driver
pub mod Liveness
mod Tests
use lazily_go.Base.{◌==◌, if◌then◌else◌, Bool, false, leb, ltb, true, ℕ}
use lazily_go.Base.Word.{inc_i64, zero_i64}

-- `IpcMessage`: a `Delta` has its base epoch, its epoch and its operations.
pub data IpcMessage {ℓ} (P : Type ℓ) : Type ℓ where
  snapshot : ℕ → P → IpcMessage P
  delta : ℕ → ℕ → P → IpcMessage P
  crdt_sync : P → IpcMessage P
  resync_request : ℕ → IpcMessage P
  outbox_ack : ℕ → IpcMessage P

-- `ResyncAction`.
pub data ResyncAction : Type 0 where
  apply request_snapshot ignore : ResyncAction

-- `ResyncCoordinator`.
pub record ResyncCoordinator : Type 0 where
  pub last_epoch : ℕ
  pub resyncing : Bool

-- What `Ingest` returns beside the new state: the action, and the epoch to ask from.
abbrev pub Decision : Type 0
Decision = ResyncCoordinator × ResyncAction × ℕ

-- `NewResyncCoordinatorWithEpoch`.
unfoldable pub new_coordinator : ℕ → ResyncCoordinator
new_coordinator last_epoch = record { last_epoch = last_epoch; resyncing = false }

-- `IngestDelta`.
unfoldable pub ingest_delta : ResyncCoordinator → ℕ → ℕ → Decision
ingest_delta c base_epoch epoch =
    if base_epoch == c.last_epoch
    then (if leb (inc_i64 base_epoch) epoch
        then (record { last_epoch = epoch; resyncing = false }, apply, zero_i64)
        else (c, ignore, zero_i64))
    else if ltb base_epoch c.last_epoch
    then (c, ignore, zero_i64)
    else if c.resyncing
    then (c, ignore, zero_i64)
    else (record c { resyncing = true }, request_snapshot, c.last_epoch)

-- `IngestSnapshot`.
unfoldable pub ingest_snapshot : ResyncCoordinator → ℕ → Decision
ingest_snapshot c snapshot_epoch =
    (record { last_epoch = snapshot_epoch; resyncing = false }, apply, zero_i64)

module _ {ℓ} {P : Type ℓ} where
  -- `Ingest`.
  unfoldable pub ingest : ResyncCoordinator → IpcMessage P → Decision
  unfolding ingest_delta ingest_snapshot
  ingest c (snapshot epoch state) = ingest_snapshot c epoch
  ingest c (delta base_epoch epoch ops) = ingest_delta c base_epoch epoch
  ingest c (crdt_sync batch) = (c, ignore, zero_i64)
  ingest c (resync_request from_epoch) = (c, ignore, zero_i64)
  ingest c (outbox_ack through_epoch) = (c, ignore, zero_i64)

  -- `Ack`.
  unfoldable pub ack : ResyncCoordinator → IpcMessage P
  ack c = outbox_ack c.last_epoch
