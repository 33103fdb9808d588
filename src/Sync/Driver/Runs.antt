-- ===== src/Sync/Driver/Runs.antt =====
-- reliable_sync.go, `SyncDriver`: any calls of `Enqueue`, `OnReconnect` and `Tick`, one after another.
use lazily_go.Base.{
  ◌∙◌, ◌∷◌, ◌≡◌, Bool, In-append, In-append_left, List, Option, [], ap, inl, inr, sym, ℕ,
}
use lazily_go.Sync.{IpcMessage}
use lazily_go.Sync.Outbox.Refines.{Codec}
use lazily_go.Sync.Driver.{Received, SyncDriver, enqueue, on_reconnect, tick, OutboxEntry}
use lazily_go.Sync.Driver.Safe.{Held, Unacknowledged, tick-Held}

-- The calls on a driver; a tick has its time and what the source returns in it.
pub data DriverOp {ℓ} (P : Type ℓ) : Type ℓ where
  enqueues : ℕ → IpcMessage P → DriverOp P
  reconnects : DriverOp P
  ticks : ℕ → List (Received P) → DriverOp P

-- No call acknowledges the epoch, and none enqueues another frame at it.
abbrev pub Spares {ℓ} : {P : Type ℓ} → ℕ → IpcMessage P → List (DriverOp P) → Type ℓ
Spares e msg [] = Unit
Spares e msg (enqueues epoch other ∷ ops) = (epoch ≡ e → other ≡ msg) × Spares e msg ops
Spares e msg (reconnects ∷ ops) = Spares e msg ops
Spares e msg (ticks now inbound ∷ ops) = Unacknowledged e inbound × Spares e msg ops

module _ {ℓ κ} {P : Type ℓ} {K : Type κ} (send : K → IpcMessage P → K × Bool)
    (provide : ℕ → IpcMessage P) (encode : IpcMessage P → Option (List ℕ))
    (decode : List ℕ → Option (IpcMessage P)) where
  pub drive : SyncDriver P → K → List (DriverOp P) → SyncDriver P × K
  unfolding enqueue on_reconnect tick
  drive d k [] = (d, k)
  drive d k (enqueues epoch msg ∷ ops) = drive (enqueue d epoch msg) k ops
  drive d k (reconnects ∷ ops) = drive (on_reconnect d) k ops
  drive d k (ticks now inbound ∷ ops) =
      let (d', k', _) = tick send provide encode decode now d k inbound in drive d' k' ops

  abbrev pub HeldBy : SyncDriver P → ℕ → IpcMessage P → Type ℓ
  HeldBy d e msg = Held send provide encode decode d.outbox d.pending d.peer_acked_through e msg

  HeldBy-enqueue :
      (d : SyncDriver P) (a e : ℕ) (m msg : IpcMessage P)
      → (a ≡ e → m ≡ msg)
      → HeldBy d e msg
      → HeldBy (enqueue d a m) e msg
  unfolding enqueue
  HeldBy-enqueue d a e m msg same h = record {
    kept = elim (h.kept) [
      | inl i ↦ inl (In-append_left (e, msg) d.pending ((a, m) ∷ []) i)
      | inr stored ↦ inr stored
    ];
    level = h.level;
    unacked = h.unacked;
    unproved = h.unproved;
    alone = λ x i. elim (In-append (e, x) d.pending ((a, m) ∷ []) i) [
      | inl old ↦ h.alone x old
      | inr (inl new) ↦
          sym (ap (λ (y : OutboxEntry P). y.1) new) ∙ same (ap (λ (y : OutboxEntry P). y.0) new)
      | inr (inr nothing) ↦ elim nothing [ ]
    ];
  }

  -- What was enqueued stays with the driver over any calls, until its epoch is acknowledged.
  pub drive-HeldBy :
      (d : SyncDriver P) (k : K) (ops : List (DriverOp P)) (e : ℕ) (msg : IpcMessage P)
      → Codec encode decode
      → Spares e msg ops
      → HeldBy d e msg
      → HeldBy (drive d k ops).0 e msg
  unfolding drive on_reconnect
  drive-HeldBy d k [] e msg codec spares h = h
  drive-HeldBy d k (enqueues a m ∷ ops) e msg codec spares h =
      drive-HeldBy (enqueue d a m) k ops e msg codec spares.1
        (HeldBy-enqueue d a e m msg spares.0 h)
  drive-HeldBy d k (reconnects ∷ ops) e msg codec spares h =
      drive-HeldBy (on_reconnect d) k ops e msg codec spares h
  drive-HeldBy d k (ticks now inbound ∷ ops) e msg codec spares h =
      let t = tick send provide encode decode now d k inbound in
      drive-HeldBy t.0 t.1 ops e msg codec spares.1
        (tick-Held send provide encode decode now d k inbound e msg codec spares.0 h)
