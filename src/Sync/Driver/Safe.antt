-- ===== src/Sync/Driver/Safe.antt =====
-- reliable_sync.go, `SyncDriver.Tick`: the frames that a driver holds, through one tick.
use lazily_go.Base.{
  ◌+◌, ◌<◌, ◌==◌, if◌then◌else◌, ◌∙◌, ◌∷◌, ◌≡◌, ◌⊎◌, ==_iff, Bool, Bool-cases, In, List, Option,
  Option-cases, [], ap, arith, false, if_elim, inl, inr, leb, ltb, max, refl, some, sym, true, ℕ,
  ℕ_comparable, bool_comparable, option_comparable,
}
use lazily_go.Sync.{
  IpcMessage, crdt_sync, delta, outbox_ack, resync_request, snapshot, Decision, apply, ignore,
  ingest, request_snapshot, ack,
}
use lazily_go.Sync.Outbox.{Outbox, ack_through, append, store_put, acked, replay_from}
use lazily_go.Sync.Outbox.Retain.{get-delete_through}
use lazily_go.Sync.Outbox.Refines.{Codec, ack_through-fields, acked_idle}
use lazily_go.Sync.Driver.{
  OutboxEntry, Received, SyncDriver, Work, drain_all, frame, handle, decided, empty, failed_read,
  receive, advertise, drain, replay, replay_all, report, tick, finish_tick, no_progress,
}
use lazily_go.Base.Assoc

-- No acknowledgement that comes in reaches the epoch.
abbrev pub Unacknowledged {ℓ} : {P : Type ℓ} → ℕ → List (Received P) → Type 0
Unacknowledged e [] = Unit
Unacknowledged e (frame (outbox_ack through_epoch) ∷ inbound) =
    (through_epoch < e) × Unacknowledged e inbound
Unacknowledged e (_ ∷ inbound) = Unacknowledged e inbound

module _ {ℓ κ} {P : Type ℓ} {K : Type κ} (send : K → IpcMessage P → K × Bool)
    (provide : ℕ → IpcMessage P) (encode : IpcMessage P → Option (List ℕ))
    (decode : List ℕ → Option (IpcMessage P)) where
  -- The frame stands in the outbox.
  abbrev pub Stored : Outbox → ℕ → IpcMessage P → Type ℓ
  Stored o e msg = (f : List ℕ) × (Assoc.get e o.store.entries ≡ some f) × (decode f ≡ some msg)

  -- The frame waits to be sent or stands in the outbox, the peer has not proved to have it, and no
  -- other frame waits at its epoch.
  pub record Held (o : Outbox) (pending : List (OutboxEntry P)) (through e : ℕ) (msg : IpcMessage P)
      : Type ℓ where
    pub kept : In (e, msg) pending ⊎ Stored o e msg
    pub level : o.acked_through ≡ o.store.cursor
    pub unacked : o.acked_through < e
    pub unproved : through < e
    pub alone : (other : IpcMessage P) → In (e, other) pending → other ≡ msg

  abbrev entry : IpcMessage P → ℕ → OutboxEntry P
  entry m a = (a, m)

  Held-append :
      (o : Outbox) (a c e : ℕ) (m msg : IpcMessage P) (entries : List (OutboxEntry P))
      → Codec encode decode
      → Held o ((a, m) ∷ entries) c e msg
      → Held (append encode decode o a m) entries c e msg
  unfolding append store_put
  Held-append o a c e m msg entries codec h =
      let (f, good, back) = codec m in
      rw (append, good)
        (record {
          kept = elim (Bool-cases (a == e)) [
            | inl same ↦
                let here : m ≡ msg = h.alone m (inl (ap (entry m) ((==_iff a e).0 same))) in
                inr (
                  f,
                  rw (store_put, Assoc.get-put a e f o.store.entries, same) refl,
                  back ∙ ap some here,
                )
            | inr other ↦ elim (h.kept) [
              | inl (inl first) ↦ absurd (ground (arith, ap (λ (x : OutboxEntry P). x.0) first))
              | inl (inr i) ↦ inl i
              | inr (g, got, good') ↦
                  inr (g, rw (store_put, Assoc.get-put a e f o.store.entries, other) got, good')
            ]
          ];
          level = h.level;
          unacked = h.unacked;
          unproved = h.unproved;
          alone = λ x i. h.alone x (inr i);
        })

  Held-ack :
      (o : Outbox) (t c e : ℕ) (msg : IpcMessage P) (entries : List (OutboxEntry P))
      → t < e
      → Held o entries c e msg
      → Held (ack_through o t) entries (if ltb c t then t else c) e msg
  Held-ack o t c e msg entries less h =
      let (loaded, saved, left) = ack_through-fields o t h.level in
      let stays : leb e (max o.acked_through t) ≡ false = ground (arith, h.unacked) in
      record {
        kept = elim (h.kept) [
          | inl i ↦ inl i
          | inr (f, got, good) ↦ inr (
            f,
            rw (left, get-delete_through e (max o.acked_through t) o.store.entries, stays) got,
            good,
          )
        ];
        level = loaded ∙ sym saved;
        unacked = rw loaded (omega (arith, h.unacked));
        unproved = if_elim (λ x. x < e) (ltb c t) (λ _. less) (λ _. h.unproved);
        alone = h.alone;
      }

  drain_all-Held :
      (now : ℕ) (w : Work P K) (entries : List (OutboxEntry P)) (e : ℕ) (msg : IpcMessage P)
      → Codec encode decode
      → Held (w.0.outbox) entries (w.0.peer_acked_through) e msg
      → let d = (drain_all send provide encode decode now w entries).0 in
        Held d.outbox d.pending d.peer_acked_through e msg
  unfolding drain_all
  drain_all-Held now w [] e msg codec h = h
  drain_all-Held now (d, k, p) ((a, m) ∷ entries) e msg codec h =
      let h' = Held-append d.outbox a d.peer_acked_through e m msg entries codec h in
      if_elim (λ (x : Work P K). Held x.0.outbox x.0.pending x.0.peer_acked_through e msg)
        (send k m).1
        (λ _.
          drain_all-Held now
            (
              record d { outbox = append encode decode d.outbox a m; pending = entries },
              (send k m).0,
              record p { sent = p.sent + 1 },
            )
            entries e msg codec h')
        (λ _. h')

  decided-Held :
      (now : ℕ) (w : Work P K) (msg' : IpcMessage P) (c : Decision) (e : ℕ) (msg : IpcMessage P)
      → Held w.0.outbox w.0.pending w.0.peer_acked_through e msg
      → let d = (decided send provide encode decode now w msg' c).0 in
        Held d.outbox d.pending d.peer_acked_through e msg
  unfolding decided
  decided-Held now w m (c, apply, from) e msg h = h
  decided-Held now w m (c, ignore, from) e msg h = h
  decided-Held now (d, k, p) m (c, request_snapshot, from) e msg h =
      if_elim (λ (x : Work P K). Held x.0.outbox x.0.pending x.0.peer_acked_through e msg)
        (send k (resync_request from)).1 (λ _. h) (λ _. h)

  receive-Held :
      (now : ℕ) (w : Work P K) (inbound : List (Received P)) (e : ℕ) (msg : IpcMessage P)
      → Unacknowledged e inbound
      → Held w.0.outbox w.0.pending w.0.peer_acked_through e msg
      → let d = (receive send provide encode decode now w inbound).0.0 in
        Held d.outbox d.pending d.peer_acked_through e msg
  unfolding receive handle
  receive-Held now w [] e msg un h = h
  receive-Held now w (empty ∷ inbound) e msg un h = h
  receive-Held now w (failed_read ∷ inbound) e msg un h = h
  receive-Held now (d, k, p) (frame (outbox_ack t) ∷ inbound) e msg un h =
      receive-Held now (handle send provide encode decode now (d, k, p) (outbox_ack t)) inbound e
        msg un.1 (Held-ack d.outbox t d.peer_acked_through e msg d.pending un.0 h)
  receive-Held now (d, k, p) (frame (resync_request t) ∷ inbound) e msg un h =
      receive-Held now (handle send provide encode decode now (d, k, p) (resync_request t)) inbound
        e msg un
        (if_elim (λ (x : Work P K). Held x.0.outbox x.0.pending x.0.peer_acked_through e msg)
          (send k (provide t)).1 (λ _. h) (λ _. h))
  receive-Held now (d, k, p) (frame (crdt_sync t) ∷ inbound) e msg un h =
      receive-Held now (handle send provide encode decode now (d, k, p) (crdt_sync t)) inbound e msg
        un h
  receive-Held now (d, k, p) (frame (snapshot t s) ∷ inbound) e msg un h =
      receive-Held now (handle send provide encode decode now (d, k, p) (snapshot t s)) inbound e
        msg un h
  receive-Held now (d, k, p) (frame (delta a b s) ∷ inbound) e msg un h =
      receive-Held now (handle send provide encode decode now (d, k, p) (delta a b s)) inbound e msg
        un (decided-Held now (d, k, p) (delta a b s) (ingest d.coordinator (delta a b s)) e msg h)

  Held-acked :
      (o : Outbox) (c e : ℕ) (msg : IpcMessage P) (entries : List (OutboxEntry P))
      → Held o entries c e msg
      → Held (acked o) entries c e msg
  Held-acked o c e msg entries h = rw (acked_idle o h.level) h

  Held-replay_from :
      (o : Outbox) (cursor c e : ℕ) (msg : IpcMessage P) (entries : List (OutboxEntry P))
      → Held o entries c e msg
      → Held (replay_from encode decode o cursor).0 entries c e msg
  unfolding replay_from
  Held-replay_from o cursor c e msg entries h =
      let h' = Held-acked o c e msg entries h in
      record {
        kept = h'.kept;
        level = h'.level;
        unacked = h'.unacked;
        unproved = h'.unproved;
        alone = h'.alone;
      }

  replay_all-Held :
      (now : ℕ) (w : Work P K) (entries : List (OutboxEntry P)) (e : ℕ) (msg : IpcMessage P)
      → Held w.0.outbox w.0.pending w.0.peer_acked_through e msg
      → let d = (replay_all send provide encode decode now w entries).0 in
        Held d.outbox d.pending d.peer_acked_through e msg
  unfolding replay_all
  replay_all-Held now w [] e msg h = h
  replay_all-Held now (d, k, p) ((a, m) ∷ entries) e msg h =
      if_elim (λ (x : Work P K). Held x.0.outbox x.0.pending x.0.peer_acked_through e msg)
        (send k m).1
        (λ _. replay_all-Held now (d, (send k m).0, record p { sent = p.sent + 1 }) entries e msg h)
        (λ _. h)

  replay-Held :
      (now : ℕ) (w : Work P K) (e : ℕ) (msg : IpcMessage P)
      → Held w.0.outbox w.0.pending w.0.peer_acked_through e msg
      → let d = (replay send provide encode decode now w).0 in
        Held d.outbox d.pending d.peer_acked_through e msg
  unfolding replay
  replay-Held now (d, k, p) e msg h =
      let (outbox, entries) = replay_from encode decode d.outbox d.peer_acked_through in
      if_elim (λ (x : Work P K). Held x.0.outbox x.0.pending x.0.peer_acked_through e msg)
        d.replay_pending
        (λ _.
          replay_all-Held now (record d { replay_pending = false; outbox = outbox }, k, p) entries e
            msg
            (Held-replay_from d.outbox d.peer_acked_through d.peer_acked_through e msg d.pending h))
        (λ _. h)

  drain-Held :
      (now : ℕ) (w : Work P K) (e : ℕ) (msg : IpcMessage P)
      → Codec encode decode
      → Held w.0.outbox w.0.pending w.0.peer_acked_through e msg
      → let d = (drain send provide encode decode now w).0 in
        Held d.outbox d.pending d.peer_acked_through e msg
  unfolding drain
  drain-Held now (d, k, p) e msg codec h = elim (Option-cases (d.stalled_since)) [
    | inl up ↦ rw (up, drain) (drain_all-Held now (d, k, p) d.pending e msg codec h)
    | inr (since, down) ↦ rw (down, drain) h
  ]

  advertise-Held :
      (w : Work P K) (e : ℕ) (msg : IpcMessage P)
      → Held w.0.outbox w.0.pending w.0.peer_acked_through e msg
      → let d = (advertise send provide encode decode w).0 in
        Held d.outbox d.pending d.peer_acked_through e msg
  unfolding advertise
  advertise-Held (d, k, p) e msg h =
      if_elim (λ (x : Work P K). Held x.0.outbox x.0.pending x.0.peer_acked_through e msg)
        d.ack_owed
        (λ _.
          if_elim (λ (x : SyncDriver P). Held x.outbox x.pending x.peer_acked_through e msg)
            (send k (ack d.coordinator)).1 (λ _. h) (λ _. h))
        (λ _. h)

  finish_tick-Held :
      (ok : Bool) (w : Work P K) (e : ℕ) (msg : IpcMessage P)
      → Held w.0.outbox w.0.pending w.0.peer_acked_through e msg
      → let d = (finish_tick send provide encode decode ok w).0 in
        Held d.outbox d.pending d.peer_acked_through e msg
  unfolding finish_tick report
  finish_tick-Held true w e msg h =
      let d = (advertise send provide encode decode w).0 in
      Held-acked d.outbox d.peer_acked_through e msg d.pending (advertise-Held w e msg h)
  finish_tick-Held false (d, k, p) e msg h = h

  -- Where every message encodes and decodes back, a frame that waits to be sent or stands in the outbox,
  -- above what the peer has acknowledged, with no other frame waiting at its epoch, still does so
  -- after a tick, whichever sends the sink refuses and wherever the source fails, if the peer does
  -- not acknowledge its epoch in that tick. So the next tick can be taken the same way.
  pub tick-Held :
      (now : ℕ) (d : SyncDriver P) (k : K) (inbound : List (Received P)) (e : ℕ)
      (msg : IpcMessage P)
      → Codec encode decode
      → Unacknowledged e inbound
      → Held d.outbox d.pending d.peer_acked_through e msg
      → let d' = (tick send provide encode decode now d k inbound).0 in
        Held d'.outbox d'.pending d'.peer_acked_through e msg
  unfolding tick
  tick-Held now d k inbound e msg codec un h =
      let w =
        drain send provide encode decode now
          (replay send provide encode decode now (d, k, no_progress)) in
      let r = receive send provide encode decode now w inbound in
      finish_tick-Held r.1 r.0 e msg (
        receive-Held now w inbound e msg un (
          drain-Held now (replay send provide encode decode now (d, k, no_progress)) e msg codec
            (replay-Held now (d, k, no_progress) e msg h)))
