-- ===== src/Sync/Outbox/Retain.antt =====
-- durable_outbox_store.go: what an outbox replays, after any calls of `Append` and `AckThrough`.
use lazily_go.Base.{
  ◌<◌, if◌then◌else◌, ◌↔◌, ◌∙◌, ◌∷◌, ◌≡◌, ==_iff, Bool-cases, In, List, Option, Option-cases, [],
  ap, arith, inl, inr, leb, ltb, map, none, refl, some, subst, sym, ℕ, ℕ_comparable,
  bool_comparable, option_comparable,
}
use lazily_go.Sync.Outbox.{
  InMemoryStore, StoredOutboxEntry, decode_all, delete_through_from, epochs_after, frame_at,
  scan_after,
}
use lazily_go.Base.Assoc
use lazily_go.Base.Sort.{In-sort, sort}

pub get-delete_through :
    (e t : ℕ) (es : List (ℕ × List ℕ))
    → Assoc.get e (delete_through_from t es) ≡ (if leb e t then none else Assoc.get e es)
unfolding delete_through_from Assoc.get
get-delete_through e t [] = ground arith
get-delete_through e t ((k, f) ∷ es) = ground (arith, get-delete_through e t es, ==_iff k e)

In-epochs_after :
    (e cursor : ℕ) (es : List (ℕ × List ℕ))
    → In e (epochs_after cursor es) ↔ ((cursor < e) × In e (Assoc.keys es))
unfolding epochs_after
In-epochs_after e cursor [] = (λ h. elim h [ ], λ h. elim (h.1) [ ])
In-epochs_after e cursor ((k, f) ∷ es) = elim (Bool-cases (ltb cursor k)) [
  | inl later ↦ rw (later, epochs_after) grind (arith, In-epochs_after e cursor es)
  | inr early ↦ rw (early, epochs_after) grind (arith, In-epochs_after e cursor es)
]

abbrev pair_of : ℕ → List ℕ → StoredOutboxEntry
pair_of e f = (e, f)

frame_found :
    (e : ℕ) (f : List ℕ) (es : List (ℕ × List ℕ)) → Assoc.get e es ≡ some f → frame_at es e ≡ f
frame_found e f es got = rw (frame_at, got) refl

In-frames :
    (e : ℕ) (f : List ℕ) (es : List (ℕ × List ℕ)) (ks : List ℕ)
    → In {A = StoredOutboxEntry} (e, f) (map (λ k. (k, frame_at es k)) ks)
      ↔ (In e ks × (frame_at es e ≡ f))
In-frames e f es [] = (λ h. elim h [ ], λ h. elim (h.0) [ ])
In-frames e f es (k ∷ ks) = (
  λ h. elim h [
    | inl here ↦ (
      inl (ap (λ (x : StoredOutboxEntry). x.0) here),
      subst (λ j. frame_at es j ≡ f) (ap (λ (x : StoredOutboxEntry). x.0) here)
          (ap (λ (x : StoredOutboxEntry). x.1) here),
    )
    | inr there ↦ let (i, same) = (In-frames e f es ks).0 there in (inr i, same)
  ],
  λ (i, same). elim i [
    | inl here ↦
        inl (subst (λ j. pair_of j (frame_at es j) ≡ pair_of e f) (sym here) (ap (pair_of e) same))
    | inr there ↦ inr ((In-frames e f es ks).1 (there, same))
  ],
)

-- `ScanAfter` returns what stands in the store after the cursor, and nothing else.
pub In-scan_after :
    (s : InMemoryStore) (cursor e : ℕ) (f : List ℕ)
    → In (e, f) (scan_after s cursor) ↔ ((cursor < e) × (Assoc.get e s.entries ≡ some f))
unfolding scan_after
In-scan_after s cursor e f = (
  λ h.
      let (i, same) = (In-frames e f s.entries (sort (epochs_after cursor s.entries))).0 h in
      let (after, kept) = (In-epochs_after e cursor s.entries).0 ((In-sort e _).0 i) in
      let (g, got) = Assoc.get_of_keys e s.entries kept in
      (after, got ∙ ap some (sym (frame_found e g s.entries got) ∙ same)),
  λ (after, got). (In-frames e f s.entries (sort (epochs_after cursor s.entries))).1 (
    (In-sort e _).1
        ((In-epochs_after e cursor s.entries).1 (after, Assoc.keys_of_get e f s.entries got)),
    frame_found e f s.entries got,
  ),
)

module _ {ℓ} {M : Type ℓ} (encode : M → Option (List ℕ)) (decode : List ℕ → Option M) where
  pub In-decode_all :
      (e : ℕ) (m : M) (xs : List StoredOutboxEntry)
      → In (e, m) (decode_all encode decode xs).0
        ↔ ((f : List ℕ) × In (e, f) xs × (decode f ≡ some m))
  unfolding decode_all
  In-decode_all e m [] = (λ h. elim h [ ], λ (f, h, _). elim h [ ])
  In-decode_all e m ((k, f) ∷ xs) = elim (Option-cases (decode f)) [
    | inl bad ↦
        rw (bad, decode_all)
          (
            λ h. let (g, i, ok) = (In-decode_all e m xs).0 h in (g, inr i, ok),
            λ (g, i, ok). elim i [
              | inl here ↦ absurd (cc (bad, ok, ap (λ (x : StoredOutboxEntry). x.1) here))
              | inr there ↦ (In-decode_all e m xs).1 (g, there, ok)
            ],
          )
    | inr (x, good) ↦
        rw (good, decode_all)
          (
            λ h. elim h [
              | inl here ↦ (
                f,
                inl (ap (λ (y : ℕ × M). pair_of y.0 f) here),
                good ∙ ap some (ap (λ (y : ℕ × M). y.1) here),
              )
              | inr there ↦ let (g, i, ok) = (In-decode_all e m xs).0 there in (g, inr i, ok)
            ],
            λ (g, i, ok). elim i [
              | inl here ↦ inl (
                  cc (
                    good,
                    ok,
                    ap (λ (y : StoredOutboxEntry). y.0) here,
                    ap (λ (y : StoredOutboxEntry). y.1) here,
                  ))
              | inr there ↦ inr ((In-decode_all e m xs).1 (g, there, ok))
            ],
          )
  ]
