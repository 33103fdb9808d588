-- ===== src/Sync/Resync.antt =====
-- reliable_sync.go, `ResyncCoordinator`: what a receiver folds from a stream with gaps and repeats.
use lazily_go.Base.{
  ◌++◌, ◌<◌, ◌==◌, ◌∷◌, ◌≡◌, ◌≤◌, ◌⊎◌, ==_iff, Bool-cases, List, [], ap, arith, false, if_elim, inl,
  inr, leb, leb→le, le→leb, ltb, refl, subst, sym, ℕ,
}
use lazily_go.Sync.{
  IpcMessage, ResyncAction, ResyncCoordinator, apply, crdt_sync, delta, ignore, ingest, outbox_ack,
  request_snapshot, resync_request, snapshot, ingest_delta, Decision,
}
use lazily_go.Base.Word.{max_i64, inc_i64, zero_i64}

pub ingest_delta_old :
    (c : ResyncCoordinator) (a b : ℕ)
    → a < c.last_epoch
    → ingest_delta c a b ≡ (c, ignore, zero_i64)
unfolding ingest_delta
ingest_delta_old c a b less = ground arith

pub ingest_delta_here :
    (c : ResyncCoordinator) (a b : ℕ)
    → c.last_epoch ≡ a
    → a < b
    → b ≤ max_i64
    → ingest_delta c a b ≡ (record { last_epoch = b; resyncing = false }, apply, zero_i64)
unfolding ingest_delta
ingest_delta_here c a b at more r =
    rw ((==_iff a c.last_epoch).1 (sym at), le→leb (inc_i64 a) b (omega arith)) refl

module _ {ℓ} {P : Type ℓ} where
  -- The frame, if the receiver folds it.
  abbrev pub folded : ResyncAction → IpcMessage P → List (IpcMessage P)
  folded apply msg = msg ∷ []
  folded request_snapshot msg = []
  folded ignore msg = []

  -- The receiver after a stream of frames, and the frames that it folds.
  unfoldable pub ingest_all :
      ResyncCoordinator → List (IpcMessage P) → ResyncCoordinator × List (IpcMessage P)
  unfolding ingest
  ingest_all c [] = (c, [])
  ingest_all c (msg ∷ msgs) =
      let (c', action, _) = ingest c msg in
      let (c'', rest) = ingest_all c' msgs in (c'', folded action msg ++ rest)

  -- A run of deltas from an epoch to an epoch: each begins where the one before ended, and advances.
  pub data Chain : ℕ → List (IpcMessage P) → ℕ → Type ℓ where
    at_end : {e : ℕ} → Chain e [] e
    next :
        {a b e : ℕ} {ops : P} {ds : List (IpcMessage P)}
        → a < b
        → Chain b ds e
        → Chain a (delta a b ops ∷ ds) e

  -- What a replica may fold one after another: deltas that each begin where it stands, and snapshots,
  -- which stand for themselves.
  pub data Contiguous : ℕ → List (IpcMessage P) → ℕ → Type ℓ where
    at_end : {e : ℕ} → Contiguous e [] e
    follow :
        {a b e : ℕ} {ops : P} {ms : List (IpcMessage P)}
        → a < b
        → Contiguous b ms e
        → Contiguous a (delta a b ops ∷ ms) e
    adopt :
        {a b e : ℕ} {state : P} {ms : List (IpcMessage P)}
        → Contiguous b ms e
        → Contiguous a (snapshot b state ∷ ms) e

  -- The epochs are `int64`s below the largest one.
  abbrev pub InRange : List (IpcMessage P) → Type 0
  InRange [] = Unit
  InRange (snapshot e s ∷ ms) = (e < max_i64) × InRange ms
  InRange (delta a b ops ∷ ms) = (b < max_i64) × InRange ms
  InRange (crdt_sync batch ∷ ms) = InRange ms
  InRange (resync_request e ∷ ms) = InRange ms
  InRange (outbox_ack e ∷ ms) = InRange ms

  Contiguous-at :
      {a b e : ℕ} {ms : List (IpcMessage P)} → a ≡ b → Contiguous b ms e → Contiguous a ms e
  Contiguous-at {e = e} {ms = ms} same run = subst (λ x. Contiguous x ms e) (sym same) run

  -- What becomes of a delta: it begins where the receiver stands and is folded, or it is not folded
  -- and the receiver stands where it stood.
  ingest_delta-cases :
      (c : ResyncCoordinator) (a b : ℕ) (ops : P)
      → c.last_epoch < max_i64
      → ((c.last_epoch ≡ a)
          × (a < b)
          × (ingest_delta c a b ≡ (record { last_epoch = b; resyncing = false }, apply, zero_i64)))
        ⊎ (((ingest_delta c a b).0.last_epoch ≡ c.last_epoch)
            × (folded (ingest_delta c a b).1 (delta a b ops) ≡ []))
  unfolding ingest_delta
  ingest_delta-cases c a b ops r = elim (Bool-cases (a == c.last_epoch)) [
    | inl same ↦ elim (Bool-cases (leb (inc_i64 a) b)) [
      | inl more ↦ inl (
        sym ((==_iff a c.last_epoch).0 same),
        omega (arith, (==_iff a c.last_epoch).0 same, leb→le (inc_i64 a) b more),
        rw (same, more) refl,
      )
      | inr less ↦ inr (rw (same, less) (refl, refl))
    ]
    | inr other ↦ inr (
        rw other (
          if_elim Waits (ltb a c.last_epoch) (λ _. (refl, refl))
            (λ _. if_elim Waits c.resyncing (λ _. (refl, refl)) (λ _. (refl, refl)))))
  ]
    where
      Waits : Decision → Type ℓ
      Waits d = (d.0.last_epoch ≡ c.last_epoch) × (folded d.1 (delta a b ops) ≡ [])

  -- Whatever arrives, lost, repeated or out of order, a receiver below the largest epoch folds only a contiguous run of
  -- frames from the epoch it stands at to the epoch it ends at.
  pub ingest_all-Contiguous :
      (c : ResyncCoordinator) (ms : List (IpcMessage P))
      → c.last_epoch < max_i64
      → InRange ms
      → Contiguous c.last_epoch (ingest_all c ms).1 (ingest_all c ms).0.last_epoch
  unfolding ingest_all
  ingest_all-Contiguous c [] r rs = at_end
  ingest_all-Contiguous c (snapshot e s ∷ ms) r rs = adopt (ingest_all-Contiguous _ ms rs.0 rs.1)
  ingest_all-Contiguous c (crdt_sync batch ∷ ms) r rs = ingest_all-Contiguous c ms r rs
  ingest_all-Contiguous c (resync_request e ∷ ms) r rs = ingest_all-Contiguous c ms r rs
  ingest_all-Contiguous c (outbox_ack e ∷ ms) r rs = ingest_all-Contiguous c ms r rs
  ingest_all-Contiguous c (delta a b ops ∷ ms) r rs = elim (ingest_delta-cases c a b ops r) [
    | inl (here, more, e) ↦ rw e (
        Contiguous-at here (
          follow {ops = ops} more
            (ingest_all-Contiguous (record { last_epoch = b; resyncing = false }) ms rs.0 rs.1)))
    | inr (still, nothing) ↦ rw nothing (
        Contiguous-at (sym still)
          (ingest_all-Contiguous (ingest_delta c a b).0 ms (rw still r) rs.1))
  ]

  Chain-le : {a e : ℕ} {ds : List (IpcMessage P)} → Chain a ds e → a ≤ e
  Chain-le at_end = omega arith
  Chain-le (next more rest) = omega (arith, Chain-le rest)

  -- What was folded before is dropped.
  old_dropped :
      (c : ResyncCoordinator) {a e : ℕ} {ds : List (IpcMessage P)} (ms : List (IpcMessage P))
      → Chain a ds e
      → e ≤ c.last_epoch
      → ingest_all c (ds ++ ms) ≡ ingest_all c ms
  unfolding ingest_all
  old_dropped c ms at_end at = refl
  old_dropped c ms (next {a} {b} {e} {ops} more rest) at =
      rw (ingest_delta_old c a b (omega (arith, Chain-le rest))) (old_dropped c ms rest at)

  -- What begins where the receiver stands is folded.
  new_folded :
      (c : ResyncCoordinator) {a e : ℕ} {ds : List (IpcMessage P)}
      → Chain a ds e
      → c.last_epoch ≡ a
      → e ≤ max_i64
      → ((ingest_all c ds).1 ≡ ds) × ((ingest_all c ds).0.last_epoch ≡ e)
  unfolding ingest_all
  new_folded c at_end at r = (refl, at)
  new_folded c (next {a} {b} {e} {ops} more rest) at r =
      rw (ingest_delta_here c a b at more (omega (arith, Chain-le rest))) (
        let (all, end) = new_folded (record { last_epoch = b; resyncing = false }) rest refl r in
        (ap (◌∷◌ (delta a b ops)) all, end))

  -- A sender replays its deltas from an epoch that the receiver has passed: the receiver drops those
  -- that it has folded, folds all others, each once and in order, and ends where the sender stands.
  pub replay_converges :
      (c : ResyncCoordinator) (a e : ℕ) (before after : List (IpcMessage P))
      → Chain a before c.last_epoch
      → Chain c.last_epoch after e
      → e ≤ max_i64
      → ((ingest_all c (before ++ after)).1 ≡ after)
        × ((ingest_all c (before ++ after)).0.last_epoch ≡ e)
  replay_converges c a e before after old new r =
      rw (old_dropped c after old (omega arith)) (new_folded c new refl r)
