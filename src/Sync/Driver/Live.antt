-- ===== src/Sync/Driver/Live.antt =====
-- reliable_sync.go, `SyncDriver`: a tick that follows a reconnect.
use lazily_go.Base.{
  ◌+◌, ◌<◌, ◌∙◌, ◌∷◌, ◌≡◌, Bool, In, List, Option, [], ap, arith, false, if_elim, inl, inr, max,
  none, refl, subst, sym, true, ℕ,
}
use lazily_go.Sync.{
  Decision, IpcMessage, ack, apply, crdt_sync, delta, ignore, ingest, outbox_ack, request_snapshot,
  resync_request, snapshot,
}
use lazily_go.Sync.Outbox.{Outbox, append, replay_from}
use lazily_go.Sync.Outbox.Retain.{In-decode_all, In-scan_after}
use lazily_go.Sync.Outbox.Refines.{Codec, replay_from-scan}
use lazily_go.Sync.Driver.{
  OutboxEntry, Received, SyncDriver, Work, advertise, decided, drain, drain_all, empty, failed_read,
  finish_tick, frame, handle, no_progress, on_reconnect, receive, replay, replay_all, report, tick,
}
use lazily_go.Sync.Driver.Safe.{Stored}
use lazily_go.Sync.Driver.Runs.{DriverOp, HeldBy, Spares, drive, drive-HeldBy}

-- What the loop relies on in a sink: one that is up takes every frame and stays up, a frame that it
-- takes is heard by the peer, and what the peer has heard stays heard.
pub record Sink {ℓ κ μ} {P : Type ℓ} {K : Type κ} (send : K → IpcMessage P → K × Bool)
    (Up : K → Type μ) (Heard : K → IpcMessage P → Type μ) : Type (ℓ ⊔ κ ⊔ μ) where
  pub takes : (k : K) (m : IpcMessage P) → Up k → (send k m).1 ≡ true
  pub stays_up : (k : K) (m : IpcMessage P) → Up k → Up (send k m).0
  pub hears : (k : K) (m : IpcMessage P) → Up k → Heard (send k m).0 m
  pub keeps : (k : K) (m x : IpcMessage P) → Heard k x → Heard (send k m).0 x

module _ {ℓ κ μ} {P : Type ℓ} {K : Type κ} (send : K → IpcMessage P → K × Bool)
    (provide : ℕ → IpcMessage P) (encode : IpcMessage P → Option (List ℕ))
    (decode : List ℕ → Option (IpcMessage P)) (Up : K → Type μ) (Heard : K → IpcMessage P → Type μ)
    (sink : Sink send Up Heard) where
  -- The sink after the frames of the entries.
  feed : K → List (OutboxEntry P) → K
  feed k [] = k
  feed k ((epoch, msg) ∷ entries) = feed (send k msg).0 entries

  feed-Up : (k : K) (entries : List (OutboxEntry P)) → Up k → Up (feed k entries)
  unfolding feed
  feed-Up k [] up = up
  feed-Up k ((epoch, msg) ∷ entries) up = feed-Up (send k msg).0 entries (sink.stays_up k msg up)

  feed-keeps :
      (k : K) (entries : List (OutboxEntry P)) (x : IpcMessage P)
      → Heard k x
      → Heard (feed k entries) x
  unfolding feed
  feed-keeps k [] x h = h
  feed-keeps k ((epoch, msg) ∷ entries) x h =
      feed-keeps (send k msg).0 entries x (sink.keeps k msg x h)

  feed-hears :
      (k : K) (entries : List (OutboxEntry P)) (e : ℕ) (x : IpcMessage P)
      → Up k
      → In (e, x) entries
      → Heard (feed k entries) x
  unfolding feed
  feed-hears k [] e x up i = elim i [ ]
  feed-hears k ((epoch, msg) ∷ entries) e x up i = elim i [
    | inl here ↦
        feed-keeps (send k msg).0 entries x (
          subst (Heard (send k msg).0) (ap (λ (y : OutboxEntry P). y.1) here) (sink.hears k msg up))
    | inr there ↦ feed-hears (send k msg).0 entries e x (sink.stays_up k msg up) there
  ]

  replay_all-feed :
      (now : ℕ) (w : Work P K) (entries : List (OutboxEntry P))
      → Up w.1
      → ((replay_all send provide encode decode now w entries).0 ≡ w.0)
        × ((replay_all send provide encode decode now w entries).1 ≡ feed w.1 entries)
  unfolding replay_all feed
  replay_all-feed now w [] up = (refl, refl)
  replay_all-feed now (d, k, p) ((epoch, msg) ∷ entries) up = rw (sink.takes k msg up) (
      replay_all-feed now (d, (send k msg).0, record p { sent = p.sent + 1 }) entries
        (sink.stays_up k msg up))

  drain_all-feed :
      (now : ℕ) (w : Work P K) (entries : List (OutboxEntry P))
      → Up w.1
      → (drain_all send provide encode decode now w entries).1 ≡ feed w.1 entries
  unfolding drain_all feed
  drain_all-feed now w [] up = refl
  drain_all-feed now (d, k, p) ((epoch, msg) ∷ entries) up = rw (sink.takes k msg up) (
      drain_all-feed now
        (
          record d { outbox = append encode decode d.outbox epoch msg; pending = entries },
          (send k msg).0,
          record p { sent = p.sent + 1 },
        )
        entries (sink.stays_up k msg up))

  decided-keeps :
      (now : ℕ) (w : Work P K) (msg : IpcMessage P) (c : Decision) (x : IpcMessage P)
      → Heard w.1 x
      → Heard (decided send provide encode decode now w msg c).1 x
  unfolding decided
  decided-keeps now w msg (c, apply, from) x h = h
  decided-keeps now w msg (c, ignore, from) x h = h
  decided-keeps now (d, k, p) msg (c, request_snapshot, from) x h =
      let h' = sink.keeps k (resync_request from) x h in
      if_elim (λ (y : Work P K). Heard y.1 x) (send k (resync_request from)).1 (λ _. h') (λ _. h')

  handle-keeps :
      (now : ℕ) (w : Work P K) (msg x : IpcMessage P)
      → Heard w.1 x
      → Heard (handle send provide encode decode now w msg).1 x
  unfolding handle
  handle-keeps now w (outbox_ack t) x h = h
  handle-keeps now (d, k, p) (resync_request t) x h =
      let h' = sink.keeps k (provide t) x h in
      if_elim (λ (y : Work P K). Heard y.1 x) (send k (provide t)).1 (λ _. h') (λ _. h')
  handle-keeps now w (crdt_sync batch) x h = h
  handle-keeps now w (snapshot e s) x h = h
  handle-keeps now w (delta a b ops) x h =
      decided-keeps now w (delta a b ops) (ingest w.0.coordinator (delta a b ops)) x h

  receive-keeps :
      (now : ℕ) (w : Work P K) (inbound : List (Received P)) (x : IpcMessage P)
      → Heard w.1 x
      → Heard (receive send provide encode decode now w inbound).0.1 x
  unfolding receive
  receive-keeps now w [] x h = h
  receive-keeps now w (empty ∷ inbound) x h = h
  receive-keeps now w (failed_read ∷ inbound) x h = h
  receive-keeps now w (frame msg ∷ inbound) x h =
      receive-keeps now (handle send provide encode decode now w msg) inbound x
        (handle-keeps now w msg x h)

  finish_tick-keeps :
      (ok : Bool) (w : Work P K) (x : IpcMessage P)
      → Heard w.1 x
      → Heard (finish_tick send provide encode decode ok w).1 x
  unfolding finish_tick report advertise
  finish_tick-keeps true (d, k, p) x h =
      if_elim (λ (y : Work P K). Heard y.1 x) d.ack_owed (λ _. sink.keeps k (ack d.coordinator) x h)
        (λ _. h)
  finish_tick-keeps false w x h = h

  drain-feed :
      (now : ℕ) (w : Work P K)
      → w.0.stalled_since ≡ none
      → Up w.1
      → (drain send provide encode decode now w).1 ≡ feed w.1 w.0.pending
  unfolding drain
  drain-feed now (d, k, p) healthy up =
      rw (healthy, drain) (drain_all-feed now (d, k, p) d.pending up)

  -- The sink after the replay and the drain of a tick that follows a reconnect.
  drained :
      (now : ℕ) (d : SyncDriver P) (k : K)
      → Up k
      → (drain send provide encode decode now
          (replay send provide encode decode now (on_reconnect d, k, no_progress))).1
        ≡ feed (feed k (replay_from encode decode d.outbox d.peer_acked_through).1) d.pending
  unfolding replay on_reconnect drain
  drained now d k up =
      let (outbox, entries) = replay_from encode decode d.outbox d.peer_acked_through in
      let from : Work P K =
        (record (on_reconnect d) { replay_pending = false; outbox = outbox }, k, no_progress) in
      let (same, fed) = replay_all-feed now from entries up in
      drain-feed now (replay_all send provide encode decode now from entries)
        (ap (λ (x : SyncDriver P). x.stalled_since) same)
        (subst Up (sym fed) (feed-Up k entries up))
      ∙ rw (fed, ap (λ (x : SyncDriver P). x.pending) same) refl

  Stored-replayed :
      (o : Outbox) (cursor e : ℕ) (msg : IpcMessage P)
      → o.acked_through ≡ o.store.cursor
      → o.acked_through < e
      → cursor < e
      → Stored send provide encode decode o e msg
      → In (e, msg) (replay_from encode decode o cursor).1
  Stored-replayed o cursor e msg level unacked unproved (f, got, good) =
      rw (replay_from-scan encode decode o cursor level) (
        (In-decode_all encode decode e msg _).1
          (f, (In-scan_after o.store (max cursor o.acked_through) e f).1 (omega arith, got), good))

  held-fed :
      (d : SyncDriver P) (k : K) (e : ℕ) (msg : IpcMessage P)
      → HeldBy send provide encode decode d e msg
      → Up k
      → Heard
          (feed (feed k (replay_from encode decode d.outbox d.peer_acked_through).1) d.pending)
          msg
  held-fed d k e msg h up =
      let entries = (replay_from encode decode d.outbox d.peer_acked_through).1 in
      elim (h.kept) [
        | inl waits ↦ feed-hears (feed k entries) d.pending e msg (feed-Up k entries up) waits
        | inr stored ↦ feed-keeps (feed k entries) d.pending msg (
            feed-hears k entries e msg up (
              Stored-replayed d.outbox d.peer_acked_through e msg h.level h.unacked h.unproved
                stored))
      ]

  tick-delivers :
      (now : ℕ) (d : SyncDriver P) (k : K) (inbound : List (Received P)) (e : ℕ)
      (msg : IpcMessage P)
      → HeldBy send provide encode decode d e msg
      → Up k
      → Heard (tick send provide encode decode now (on_reconnect d) k inbound).1 msg
  unfolding tick
  tick-delivers now d k inbound e msg h up =
      let w =
        drain send provide encode decode now
          (replay send provide encode decode now (on_reconnect d, k, no_progress)) in
      let r = receive send provide encode decode now w inbound in
      finish_tick-keeps r.1 r.0 msg (
        receive-keeps now w inbound msg
          (subst (λ x. Heard x msg) (sym (drained now d k up)) (held-fed d k e msg h up)))

  -- Where every message encodes and decodes back, a driver holds a frame: it waits to be sent or stands
  -- in the outbox, above what the peer has acknowledged, and no other frame waits at its epoch. After
  -- any calls, in which sends and reads may fail, but no other frame is enqueued at that epoch and the
  -- peer does not acknowledge it, a tick that follows a reconnect delivers the frame, if the sink is
  -- up by then. A sink that is up takes every frame and stays up, and what it takes is heard.
  pub reconnect-delivers :
      (d : SyncDriver P) (k : K) (ops : List (DriverOp P)) (now e : ℕ) (inbound : List (Received P))
      (msg : IpcMessage P)
      → Codec encode decode
      → Spares e msg ops
      → HeldBy send provide encode decode d e msg
      → Up (drive send provide encode decode d k ops).1
      → let (d', k') = drive send provide encode decode d k ops in
        Heard (tick send provide encode decode now (on_reconnect d') k' inbound).1 msg
  reconnect-delivers d k ops now e inbound msg codec spares h up =
      let r = drive send provide encode decode d k ops in
      tick-delivers now r.0 r.1 inbound e msg
        (drive-HeldBy send provide encode decode d k ops e msg codec spares h) up
