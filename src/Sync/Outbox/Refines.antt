-- ===== src/Sync/Outbox/Refines.antt =====
-- durable_outbox_store.go: an outbox against the contract of `DurableOutbox` in reliable_sync.go,
-- which is a partial function from epochs to messages and the highest epoch acknowledged.
use lazily_go.Base.{
  ◌<◌, ◌==◌, if◌then◌else◌, ◌↔◌, ◌∙◌, ◌∷◌, ◌≡◌, ==_iff, Bool-cases, In, List, Option, Option-cases,
  [], ap, arith, false, inl, inr, leb, ltb, ltb→lt, max, none, refl, some, subst, sym, true, ℕ,
  ℕ_comparable, bool_comparable, option_comparable,
}
use lazily_go.Sync.Outbox.{
  Outbox, ack_through, acked, append, delete_through, save_cursor, store_put, delete_through_from,
  new_outbox, new_store, replay_from, decode_all, scan_after,
}
use lazily_go.Base.Word.{zero_i64}
use lazily_go.Base.Assoc
use lazily_go.Sync.Outbox.Retain.{get-delete_through, In-decode_all, In-scan_after}

-- The calls on an outbox that change it.
pub data OutboxOp {ℓ} (M : Type ℓ) : Type ℓ where
  appends : ℕ → M → OutboxOp M
  acks : ℕ → OutboxOp M

pub acked_idle : (o : Outbox) → o.acked_through ≡ o.store.cursor → acked o ≡ o
unfolding acked
acked_idle o same = rw (not_less) refl
  where
    not_less : ltb o.acked_through o.store.cursor ≡ false
    not_less = ground arith

-- An acknowledgement moves the cursor up, and prunes what stands at it or below.
pub ack_through-fields :
    (o : Outbox) (epoch : ℕ)
    → o.acked_through ≡ o.store.cursor
    → ((ack_through o epoch).acked_through ≡ max o.acked_through epoch)
      × ((ack_through o epoch).store.cursor ≡ max o.acked_through epoch)
      × ((ack_through o epoch).store.entries
          ≡ delete_through_from (max o.acked_through epoch) o.store.entries)
unfolding ack_through save_cursor delete_through
ack_through-fields o epoch same = elim (Bool-cases (ltb o.acked_through epoch)) [
  | inl up ↦
      let up' : ltb o.store.cursor epoch ≡ true = subst (λ x. ltb x epoch ≡ true) same up in
      let top : epoch ≡ max o.acked_through epoch =
        ground (arith, ltb→lt o.acked_through epoch up) in
      rw (ack_through, acked_idle o same, up, save_cursor, up', up)
        (top, top, ap (λ x. delete_through_from x o.store.entries) top)
  | inr stays ↦
      let top : o.acked_through ≡ max o.acked_through epoch = ground arith in
      rw (ack_through, acked_idle o same, stays, ltb_self o.acked_through)
        (top, sym same ∙ top, ap (λ x. delete_through_from x o.store.entries) top)
]
  where
    ltb_self : (n : ℕ) → ltb n n ≡ false
    ltb_self n = ground arith

-- What the sender has appended last at an epoch, and what the peer has proved to have.
pub record Contract {ℓ} (M : Type ℓ) : Type ℓ where
  pub last : ℕ → Option M
  pub through : ℕ

module _ {ℓ} {M : Type ℓ} where
  pub contract_run : Contract M → List (OutboxOp M) → Contract M
  contract_run s [] = s
  contract_run s (appends epoch msg ∷ ops) =
      contract_run (record s { last = λ e. if epoch == e then some msg else s.last e }) ops
  contract_run s (acks epoch ∷ ops) = contract_run (record s { through = max s.through epoch }) ops

  abbrev pub new_contract : Contract M
  new_contract = record { last = λ e. none; through = zero_i64 }

module _ {ℓ} {M : Type ℓ} (encode : M → Option (List ℕ)) (decode : List ℕ → Option M) where
  -- Every message has a frame, and a frame decodes to its message.
  abbrev pub Codec : Type ℓ
  Codec = (m : M) → (f : List ℕ) × (encode m ≡ some f) × (decode f ≡ some m)

  unfoldable pub outbox_run : Outbox → List (OutboxOp M) → Outbox
  unfolding append ack_through
  outbox_run o [] = o
  outbox_run o (appends epoch msg ∷ ops) = outbox_run (append encode decode o epoch msg) ops
  outbox_run o (acks epoch ∷ ops) = outbox_run (ack_through o epoch) ops

  abbrev decoded : Option (List ℕ) → Option M
  decoded none = none
  decoded (some f) = decode f

  -- The outbox shows the state of the contract.
  record Shows (o : Outbox) (s : Contract M) : Type ℓ where
    loaded : o.acked_through ≡ s.through
    saved : o.store.cursor ≡ s.through
    kept : (e : ℕ) → s.through < e → decoded (Assoc.get e o.store.entries) ≡ s.last e

  Shows-append :
      (o : Outbox) (s : Contract M) (epoch : ℕ) (msg : M)
      → Codec
      → Shows o s
      → Shows
          (append encode decode o epoch msg)
          (record s { last = λ e. if epoch == e then some msg else s.last e })
  unfolding append store_put
  Shows-append o s epoch msg codec h =
      let (f, good, back) = codec msg in
      rw (append, good)
        (record {
          loaded = h.loaded;
          saved = h.saved;
          kept = λ e more.
              ground (
                arith,
                Assoc.get-put epoch e f o.store.entries,
                ==_iff epoch e,
                h.kept e more,
                back,
              );
        })

  Shows-ack :
      (o : Outbox) (s : Contract M) (epoch : ℕ)
      → Shows o s
      → Shows (ack_through o epoch) (record s { through = max s.through epoch })
  Shows-ack o s epoch h =
      let (loaded, saved, left) = ack_through-fields o epoch (h.loaded ∙ sym h.saved) in
      record {
        loaded = loaded ∙ ap (λ x. max x epoch) h.loaded;
        saved = saved ∙ ap (λ x. max x epoch) h.loaded;
        kept = λ e more.
            let stays : leb e (max s.through epoch) ≡ false = ground arith in
            rw
              (
                left,
                get-delete_through e (max o.acked_through epoch) o.store.entries,
                h.loaded,
                stays,
              )
              (h.kept e (omega arith));
      }

  outbox_run-Shows :
      (o : Outbox) (s : Contract M) (ops : List (OutboxOp M))
      → Codec
      → Shows o s
      → Shows (outbox_run o ops) (contract_run s ops)
  unfolding outbox_run contract_run
  outbox_run-Shows o s [] codec h = h
  outbox_run-Shows o s (appends epoch msg ∷ ops) codec h =
      outbox_run-Shows (append encode decode o epoch msg)
        (record s { last = λ e. if epoch == e then some msg else s.last e }) ops codec
        (Shows-append o s epoch msg codec h)
  outbox_run-Shows o s (acks epoch ∷ ops) codec h =
      outbox_run-Shows (ack_through o epoch) (record s { through = max s.through epoch }) ops codec
        (Shows-ack o s epoch h)

  new-Shows : Shows (new_outbox new_store) new_contract
  unfolding new_outbox Assoc.get
  new-Shows = record { loaded = refl; saved = refl; kept = λ e more. refl }

  decoded_found :
      (e : ℕ) (m : M) (es : List (ℕ × List ℕ))
      → decoded (Assoc.get e es) ≡ some m
      → (f : List ℕ) × (Assoc.get e es ≡ some f) × (decode f ≡ some m)
  decoded_found e m es found = elim (Option-cases (Assoc.get e es)) [
    | inl gone ↦ absurd (cc (rw (decoded, gone) at found))
    | inr (f, got) ↦ (f, got, rw (decoded, got) at found)
  ]

  pub replay_from-scan :
      (o : Outbox) (cursor : ℕ)
      → o.acked_through ≡ o.store.cursor
      → (replay_from encode decode o cursor).1
        ≡ (decode_all encode decode (scan_after o.store (max cursor o.acked_through))).0
  unfolding replay_from scan_after
  replay_from-scan o cursor same =
      let top : (if ltb cursor o.acked_through then o.acked_through else cursor)
          ≡ max cursor o.acked_through =
        ground arith in
      rw (replay_from, acked_idle o same)
        (ap (λ x. (decode_all encode decode (scan_after o.store x)).0) top)

  Shows-replay :
      (o : Outbox) (s : Contract M) (cursor e : ℕ) (m : M)
      → Shows o s
      → In (e, m) (replay_from encode decode o cursor).1
        ↔ ((cursor < e) × (s.through < e) × (s.last e ≡ some m))
  Shows-replay o s cursor e m h =
      let all = scan_after o.store (max cursor o.acked_through) in
      rw (replay_from-scan o cursor (h.loaded ∙ sym h.saved)) (
        λ i.
            let (f, there, good) = (In-decode_all encode decode e m all).0 i in
            let (after, got) = (In-scan_after o.store (max cursor o.acked_through) e f).0 there in
            let more : s.through < e = omega (arith, h.loaded) in
            (omega arith, more, sym (h.kept e more) ∙ rw (decoded, got) good),
        λ (after, more, last).
            let (f, got, good) = decoded_found e m o.store.entries (h.kept e more ∙ last) in
            (In-decode_all encode decode e m all).1 (
              f,
              (In-scan_after o.store (max cursor o.acked_through) e f).1
                  (omega (arith, h.loaded), got),
              good,
            ),
      )

  -- After any calls on a new outbox, a replay from a cursor returns for each epoch after the cursor
  -- and after every acknowledged epoch the message that was appended last there, and nothing else,
  -- provided that every message has a frame that decodes to it.
  pub outbox_run-replays :
      (ops : List (OutboxOp M)) (cursor e : ℕ) (m : M)
      → Codec
      → In (e, m) (replay_from encode decode (outbox_run (new_outbox new_store) ops) cursor).1 ↔ (
          (cursor < e)
          × ((contract_run new_contract ops).through < e)
          × ((contract_run new_contract ops).last e ≡ some m))
  outbox_run-replays ops cursor e m codec =
      Shows-replay _ _ cursor e m
        (outbox_run-Shows (new_outbox new_store) new_contract ops codec new-Shows)
