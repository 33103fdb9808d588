-- ===== src/Sync/Driver/Folds.antt =====
-- reliable_sync.go, `SyncDriver.Tick`: what a tick hands to the host to fold, and what it has taken from the
-- receiver's cursor.
use mathlib.Core.List.{append-nil, append_assoc}
use lazily_go.Base.{
  ◌+◌, ◌++◌, ◌<◌, ◌∙◌, ◌∷◌, ◌≡◌, ◌≤◌, Bool, List, Never, Option, Option-cases, [], ap, false,
  if_elim, inl, inr, none, refl, some, subst, sym, true, ℕ,
}
use lazily_go.Sync.{
  IpcMessage, crdt_sync, delta, ingest, outbox_ack, resync_request, snapshot, Decision,
  ResyncCoordinator, apply, ignore, request_snapshot, ack, ingest_delta,
}
use lazily_go.Sync.Resync.{
  folded, ingest_all, Contiguous, InRange, ingest_delta_here, ingest_delta_old,
  ingest_all-Contiguous,
}
use lazily_go.Sync.Outbox.{append, replay_from}
use lazily_go.Sync.Driver.{
  Received, Work, empty, failed_read, frame, handle, receive, decided, OutboxEntry, Progress,
  SyncDriver, drain, drain_all, finish_tick, no_progress, replay, replay_all, tick, advertise,
  report,
}
use lazily_go.Base.Word.{max_i64, zero_i64}

module _ {ℓ} {P : Type ℓ} where
  -- The frames that are read before the source is empty or fails.
  abbrev pub frames : List (Received P) → List (IpcMessage P)
  frames [] = []
  frames (frame msg ∷ inbound) = msg ∷ frames inbound
  frames (empty ∷ inbound) = []
  frames (failed_read ∷ inbound) = []

  -- The source is empty before it fails.
  abbrev pub Readable : List (Received P) → Type 0
  Readable [] = Unit
  Readable (frame msg ∷ inbound) = Readable inbound
  Readable (empty ∷ inbound) = Unit
  Readable (failed_read ∷ inbound) = Never

  -- The frames but those of the CRDT plane, which the host merges in any order.
  pub data_frames : List (IpcMessage P) → List (IpcMessage P)
  data_frames [] = []
  data_frames (crdt_sync batch ∷ ms) = data_frames ms
  data_frames (snapshot e s ∷ ms) = snapshot e s ∷ data_frames ms
  data_frames (delta a b ops ∷ ms) = delta a b ops ∷ data_frames ms
  data_frames (resync_request e ∷ ms) = resync_request e ∷ data_frames ms
  data_frames (outbox_ack e ∷ ms) = outbox_ack e ∷ data_frames ms

  data_frames-append :
      (ms ns : List (IpcMessage P)) → data_frames (ms ++ ns) ≡ data_frames ms ++ data_frames ns
  unfolding data_frames
  data_frames-append [] ns = refl
  data_frames-append (crdt_sync batch ∷ ms) ns = data_frames-append ms ns
  data_frames-append (snapshot e s ∷ ms) ns = ap (◌∷◌ (snapshot e s)) (data_frames-append ms ns)
  data_frames-append (delta a b ops ∷ ms) ns = ap (◌∷◌ (delta a b ops)) (data_frames-append ms ns)
  data_frames-append (resync_request e ∷ ms) ns =
      ap (◌∷◌ (resync_request e)) (data_frames-append ms ns)
  data_frames-append (outbox_ack e ∷ ms) ns = ap (◌∷◌ (outbox_ack e)) (data_frames-append ms ns)

module _ {ℓ κ} {P : Type ℓ} {K : Type κ} (send : K → IpcMessage P → K × Bool)
    (provide : ℕ → IpcMessage P) (encode : IpcMessage P → Option (List ℕ))
    (decode : List ℕ → Option (IpcMessage P)) where
  -- The coordinator of the new state, and the data frames that were added to the progress.
  abbrev Took : Work P K → Work P K → ResyncCoordinator → List (IpcMessage P) → Type ℓ
  Took w w' c new =
      (w'.0.coordinator ≡ c) × (data_frames w'.2.applied ≡ data_frames w.2.applied ++ new)

  Took-nothing : (w : Work P K) → Took w w w.0.coordinator []
  Took-nothing w = (refl, sym (append-nil (data_frames w.2.applied)))

  decided-Took :
      (now : ℕ) (w : Work P K) (msg : IpcMessage P) (c : Decision)
      → data_frames (msg ∷ []) ≡ msg ∷ []
      → Took w (decided send provide encode decode now w msg c) c.0 (folded c.1 msg)
  unfolding decided
  decided-Took now (d, k, p) msg (c, apply, from) plain =
      (refl, data_frames-append p.applied (msg ∷ []) ∙ ap (λ x. data_frames p.applied ++ x) plain)
  decided-Took now (d, k, p) msg (c, ignore, from) plain =
      (refl, sym (append-nil (data_frames p.applied)))
  decided-Took now (d, k, p) msg (c, request_snapshot, from) plain =
      let same = sym (append-nil (data_frames p.applied)) in
      if_elim (λ (x : Work P K). Took (d, k, p) x c []) (send k (resync_request from)).1
        (λ _. (refl, same)) (λ _. (refl, same))

  -- One frame is decided on as the coordinator decides.
  handle-ingest :
      (now : ℕ) (w : Work P K) (msg : IpcMessage P)
      → Took w
          (handle send provide encode decode now w msg)
          (ingest w.0.coordinator msg).0
          (folded (ingest w.0.coordinator msg).1 msg)
  unfolding handle ingest data_frames
  handle-ingest now (d, k, p) (outbox_ack t) = Took-nothing (d, k, p)
  handle-ingest now (d, k, p) (resync_request t) =
      if_elim (λ (x : Work P K). Took (d, k, p) x d.coordinator []) (send k (provide t)).1
        (λ _. Took-nothing (d, k, p)) (λ _. Took-nothing (d, k, p))
  handle-ingest now (d, k, p) (crdt_sync batch) =
      (refl, data_frames-append p.applied (crdt_sync batch ∷ []))
  handle-ingest now (d, k, p) (snapshot e s) =
      decided-Took now (d, k, p) (snapshot e s) (ingest d.coordinator (snapshot e s)) refl
  handle-ingest now (d, k, p) (delta a b ops) =
      decided-Took now (d, k, p) (delta a b ops) (ingest d.coordinator (delta a b ops)) refl

  receive-ingest_all :
      (now : ℕ) (w : Work P K) (inbound : List (Received P))
      → Took w
          (receive send provide encode decode now w inbound).0
          (ingest_all w.0.coordinator (frames inbound)).0
          (ingest_all w.0.coordinator (frames inbound)).1
  unfolding receive ingest_all
  receive-ingest_all now w [] = Took-nothing w
  receive-ingest_all now w (empty ∷ inbound) = Took-nothing w
  receive-ingest_all now w (failed_read ∷ inbound) = Took-nothing w
  receive-ingest_all now w (frame msg ∷ inbound) =
      let w' = handle send provide encode decode now w msg in
      let (moved, new) = handle-ingest now w msg in
      let (moved', new') = receive-ingest_all now w' inbound in
      (
        moved' ∙ ap (λ c. (ingest_all c (frames inbound)).0) moved,
        new' ∙ rw (moved, new) (append_assoc (data_frames w.2.applied) _ _),
      )

  -- The state that a tick begins to receive in.
  abbrev sent_out : ℕ → SyncDriver P → K → Work P K
  sent_out now d k =
      drain send provide encode decode now
        (replay send provide encode decode now (d, k, no_progress))

  replay_all-Took :
      (now : ℕ) (w : Work P K) (entries : List (OutboxEntry P))
      → Took w (replay_all send provide encode decode now w entries) w.0.coordinator []
  unfolding replay_all
  replay_all-Took now w [] = Took-nothing w
  replay_all-Took now (d, k, p) ((epoch, msg) ∷ entries) =
      if_elim (λ (x : Work P K). Took (d, k, p) x d.coordinator []) (send k msg).1
        (λ _. replay_all-Took now (d, (send k msg).0, record p { sent = p.sent + 1 }) entries)
        (λ _. Took-nothing (d, k, p))

  drain_all-Took :
      (now : ℕ) (w : Work P K) (entries : List (OutboxEntry P))
      → Took w (drain_all send provide encode decode now w entries) w.0.coordinator []
  unfolding drain_all
  drain_all-Took now w [] = Took-nothing w
  drain_all-Took now (d, k, p) ((epoch, msg) ∷ entries) =
      if_elim (λ (x : Work P K). Took (d, k, p) x d.coordinator []) (send k msg).1
        (λ _.
          drain_all-Took now
            (
              record d { outbox = append encode decode d.outbox epoch msg; pending = entries },
              (send k msg).0,
              record p { sent = p.sent + 1 },
            )
            entries)
        (λ _. Took-nothing (d, k, p))

  replay-Took :
      (now : ℕ) (w : Work P K) → Took w (replay send provide encode decode now w) w.0.coordinator []
  unfolding replay
  replay-Took now (d, k, p) =
      let (outbox, entries) = replay_from encode decode d.outbox d.peer_acked_through in
      if_elim (λ (x : Work P K). Took (d, k, p) x d.coordinator []) d.replay_pending
        (λ _.
          replay_all-Took now (record d { replay_pending = false; outbox = outbox }, k, p) entries)
        (λ _. Took-nothing (d, k, p))

  drain-Took :
      (now : ℕ) (w : Work P K) → Took w (drain send provide encode decode now w) w.0.coordinator []
  unfolding drain
  drain-Took now (d, k, p) = elim (Option-cases (d.stalled_since)) [
    | inl up ↦ rw (up, drain) (drain_all-Took now (d, k, p) d.pending)
    | inr (since, down) ↦ rw (down, drain) (Took-nothing (d, k, p))
  ]

  advertise-Took :
      (w : Work P K) → Took w (advertise send provide encode decode w) w.0.coordinator []
  unfolding advertise
  advertise-Took (d, k, p) =
      let same = sym (append-nil (data_frames p.applied)) in
      if_elim (λ (x : Work P K). Took (d, k, p) x d.coordinator []) d.ack_owed
        (λ _. (
          if_elim (λ (x : SyncDriver P). x.coordinator ≡ d.coordinator)
              (send k (ack d.coordinator)).1 (λ _. refl) (λ _. refl),
          same,
        ))
        (λ _. (refl, same))

  sent_out-Took :
      (now : ℕ) (d : SyncDriver P) (k : K)
      → Took (d, k, no_progress) (sent_out now d k) d.coordinator []
  sent_out-Took now d k =
      let (c, nothing) = replay-Took now (d, k, no_progress) in
      let (c', nothing') =
        drain-Took now (replay send provide encode decode now (d, k, no_progress)) in
      (c' ∙ c, nothing' ∙ append-nil _ ∙ nothing)

  receive-reads :
      (now : ℕ) (w : Work P K) (inbound : List (Received P))
      → Readable inbound
      → (receive send provide encode decode now w inbound).1 ≡ true
  unfolding receive
  receive-reads now w [] h = refl
  receive-reads now w (empty ∷ inbound) h = refl
  receive-reads now w (failed_read ∷ inbound) h = elim h [ ]
  receive-reads now w (frame msg ∷ inbound) h =
      receive-reads now (handle send provide encode decode now w msg) inbound h

  finish_tick-reports :
      (w : Work P K)
      → let (d, _, result) = finish_tick send provide encode decode true w in
        (d.coordinator ≡ w.0.coordinator)
        × (p : Progress P) × (result ≡ some p)
        × (data_frames p.applied ≡ data_frames w.2.applied)
  unfolding finish_tick report
  finish_tick-reports w =
      let (c, nothing) = advertise-Took w in
      let p = (report send provide encode decode (advertise send provide encode decode w)).2 in
      (c, p, refl, nothing ∙ append-nil _)

  -- Where the source is empty before it fails, and the receiver's epoch and those of the frames read are
  -- below the largest `int64`, a tick returns a progress. Its frames, without those of the CRDT plane,
  -- are a contiguous run from the epoch that the receiver stood at to the one that it stands at after.
  pub tick-Contiguous :
      (now : ℕ) (d : SyncDriver P) (k : K) (inbound : List (Received P))
      → Readable inbound
      → d.coordinator.last_epoch < max_i64
      → InRange (frames inbound)
      → let (d', _, result) = tick send provide encode decode now d k inbound in
        (p : Progress P) × (result ≡ some p)
        × Contiguous d.coordinator.last_epoch (data_frames p.applied) d'.coordinator.last_epoch
  unfolding tick data_frames ingest_all
  tick-Contiguous now d k inbound readable r_in rs =
      let w = sent_out now d k in
      let r = receive send provide encode decode now w inbound in
      let (c, nothing) = sent_out-Took now d k in
      let (c', new) = receive-ingest_all now w inbound in
      let (c'', p, reported, all) = finish_tick-reports r.0 in
      subst
        (λ ok.
          let (d', _, result) = finish_tick send provide encode decode ok r.0 in
          (x : Progress P) × (result ≡ some x)
          × Contiguous d.coordinator.last_epoch (data_frames x.applied) d'.coordinator.last_epoch)
        (sym (receive-reads now w inbound readable))
        (
          p,
          reported,
          rw (all, new, nothing, c'', c', c)
              (ingest_all-Contiguous d.coordinator (frames inbound) r_in rs),
        )

  -- A tick whose source fails after a delta was folded returns no progress, so that the host is not
  -- handed the delta, but the cursor has passed it, is owed to the peer as an acknowledgement, and
  -- drops the delta when it is sent again.
  pub failed_read-loses :
      (now : ℕ) (d : SyncDriver P) (k : K) (a b : ℕ) (ops : P) (inbound : List (Received P))
      → d.coordinator.last_epoch ≡ a
      → a < b
      → b ≤ max_i64
      → let (d', _, result) =
          tick send provide encode decode now d k (frame (delta a b ops) ∷ failed_read ∷ inbound) in
        (result ≡ none)
        × (d'.coordinator.last_epoch ≡ b)
        × (d'.ack_owed ≡ true)
        × (ingest d'.coordinator (delta a b ops) ≡ (d'.coordinator, ignore, zero_i64))
  unfolding tick receive handle decided ingest finish_tick
  failed_read-loses now d k a b ops inbound at more r =
      let w = sent_out now d k in
      let here : ingest_delta w.0.coordinator a b
          ≡ (record { last_epoch = b; resyncing = false }, apply, zero_i64) =
        ingest_delta_here w.0.coordinator a b
          (ap (λ (c : ResyncCoordinator). c.last_epoch) (sent_out-Took now d k).0 ∙ at) more r in
      rw here
        (refl, refl, refl, ingest_delta_old (record { last_epoch = b; resyncing = false }) a b more)
