-- ===== src/Topic/Snapshot.antt =====
-- queue.go: `NewTopicCellFromSnapshot`.
use lazily_go.Base.{
  ◌+◌, ◌<◌, if◌then◌else◌, ◌↔◌, ◌∙◌, ◌∷◌, ◌≡◌, ◌≤◌, ◌⊎◌, All, Bool, Comparable, List, Option,
  Option-cases, [], ap, arith, equal, false, inl, inr, length, map, none, refl, some, subst, sym,
  true, ℕ, ℕ_comparable, bool_comparable, option_comparable,
}
use lazily_go.Topic.Scan.{
  base_offset-ensure_found, elements-ensure_found, subscription-ensure_found,
}
use lazily_go.Topic.{
  TopicCell, TopicSubscription, ensure_reader, new_topic_cell, put_subscription, tail_offset,
  subscription, reader,
}
use lazily_go.Base.Assoc
use lazily_go.Base.Word.{int_lt, add_u64, int_lt-negative, int_lt-small, word_mod, zero_i64}
use lazily_go.Topic.Saved.{
  Sensible, Sensible-restored, TopicSnapshot, TopicSubscriptionSnapshot, restored,
  restored-Sensible, restored-saved_of, saved_of, snapshot,
}

abbrev or_else {ℓ} : {A : Type ℓ} → Option A → Option A → Option A
or_else none later = later
or_else (some a) later = some a

-- A put of a key that the rest does not have comes first.
or_else_first {ℓ} :
    {A : Type ℓ} (b : Bool) (rest old : Option A) (a : A)
    → (b ≡ true → rest ≡ none)
    → or_else rest (if b then some a else old) ≡ or_else (if b then some a else rest) old
or_else_first true rest old a new = ap (λ r. or_else r (some a)) (new refl)
or_else_first false rest old a new = refl

or_else-none {ℓ} : {A : Type ℓ} (o : Option A) → or_else o none ≡ o
or_else-none none = refl
or_else-none (some a) = refl

module _ {ℓ} {I T : Type ℓ} ⦃c : Comparable I⦄ where
  -- The loop of `NewTopicCellFromSnapshot`.
  pub restore : ℕ → TopicCell I T → List (TopicSubscriptionSnapshot I) → Option (TopicCell I T)
  unfolding ensure_reader
  restore tail t [] = some t
  restore tail t (saved ∷ rest) = elim (restored t.base_offset tail saved) [
    | none ↦ none
    | some sub ↦ restore tail (ensure_reader (put_subscription t saved.id sub) saved.id) rest
  ]

  -- `NewTopicCellFromSnapshot`.
  unfoldable pub from_snapshot : TopicSnapshot I T → Option (TopicCell I T)
  unfolding restore tail_offset new_topic_cell
  from_snapshot s =
      let t : TopicCell I T = record new_topic_cell {
        base_offset = s.base_offset;
        elements = s.elements;
      } in
      if int_lt s.base_offset 0 then none else restore (tail_offset t) t s.subscriptions

  -- A topic with this log and these subscriptions.
  abbrev Same : TopicCell I T → List (I × TopicSubscription) → TopicCell I T → Type ℓ
  Same t subs t' =
      (t'.base_offset ≡ t.base_offset)
      × (t'.elements ≡ t.elements)
      × ((id : I) → subscription t' id ≡ or_else (Assoc.get id subs) (subscription t id))

  restore-Same :
      (tail : ℕ) (t : TopicCell I T) (subs : List (I × TopicSubscription))
      → tail < zero_i64
      → Assoc.Distinct subs
      → All (Sensible t.base_offset tail) (map saved_of subs)
      → (t' : TopicCell I T) × (restore tail t (map saved_of subs) ≡ some t') × Same t subs t'
  unfolding restore Assoc.get ensure_reader
  restore-Same tail t [] small distinct ok = (t, refl, (refl, refl, λ id. refl))
  restore-Same tail t ((id, sub) ∷ subs) small (new, distinct) ok =
      let t1 : TopicCell I T = ensure_reader (put_subscription t id sub) id in
      let base : t1.base_offset ≡ t.base_offset =
        base_offset-ensure_found (put_subscription t id sub) id (reader t id) in
      let (t', e, (b, els, here)) = restore-Same tail t1 subs small distinct (rw base ok.1) in
      (
        t',
        rw (restored-saved_of t.base_offset tail id sub small ok.0, restore) e,
        (
          b ∙ base,
          els ∙ elements-ensure_found (put_subscription t id sub) id (reader t id),
          λ j.
              here j
              ∙ ap (or_else (Assoc.get j subs)) (
                  subscription-ensure_found (put_subscription t id sub) id j (reader t id)
                  ∙ Assoc.get-put id j sub t.subscriptions)
              ∙ or_else_first (equal id j) (Assoc.get j subs) (subscription t j) sub
                  (λ same. subst (λ k. Assoc.get k subs ≡ none) ((c.eq_iff id j).0 same) new),
        ),
      )

  -- The loop ends without a panic exactly if every saved subscription makes sense.
  restore_iff :
      (tail : ℕ) (t : TopicCell I T) (saved : List (TopicSubscriptionSnapshot I))
      → t.base_offset < zero_i64
      → tail < zero_i64
      → All (λ (s : TopicSubscriptionSnapshot I). s.cursor < word_mod) saved
      → ((t' : TopicCell I T) × (restore tail t saved ≡ some t'))
        ↔ All (Sensible t.base_offset tail) saved
  unfolding restore ensure_reader
  restore_iff tail t [] low small ints = (λ _. tt, λ _. (t, refl))
  restore_iff tail t (saved ∷ rest) low small ints =
      elim (Option-cases (restored t.base_offset tail saved)) [
        | inl refused ↦
            rw (refused, restore)
              (
                λ (t', e). absurd (cc e),
                λ ok.
                    let (sub, e) = Sensible-restored t.base_offset tail saved small ok.0 in
                    absurd (cc (refused, e)),
              )
        | inr (sub, taken) ↦
            let t1 = put_subscription t saved.id sub in
            let base = base_offset-ensure_found t1 saved.id (reader t1 saved.id) in
            let rest_iff =
              restore_iff tail (ensure_reader t1 saved.id) rest (omega (arith, base)) small
                ints.1 in
            rw (taken, restore)
              (
                λ h. (
                  restored-Sensible t.base_offset tail saved sub low small ints.0 taken,
                  subst (λ b. All (Sensible b tail) rest) base (rest_iff.0 h),
                ),
                λ ok. rest_iff.1 (subst (λ b. All (Sensible b tail) rest) (sym base) ok.1),
              )
      ]

  -- A snapshot that makes sense: its base offset is not negative, and its subscriptions make sense.
  abbrev pub Acceptable : TopicSnapshot I T → Type 0
  Acceptable s =
      (int_lt s.base_offset 0 ≡ false)
      × All (Sensible s.base_offset (s.base_offset + length s.elements)) s.subscriptions

  -- The numbers of a snapshot are `int`s, and so is the tail of a log whose base is not negative.
  abbrev pub InInt : TopicSnapshot I T → Type 0
  InInt s =
      (((zero_i64 ≤ s.base_offset) × (s.base_offset < word_mod))
        ⊎ (s.base_offset + length s.elements < zero_i64))
      × All (λ (saved : TopicSubscriptionSnapshot I). saved.cursor < word_mod) s.subscriptions

  -- `NewTopicCellFromSnapshot` accepts a snapshot, whose numbers and tail are `int`s, exactly if its base
  -- offset is not negative and every subscription has its cursor in the retained log, one of the two
  -- durabilities, and is connected if it is ephemeral; it panics otherwise.
  pub from_snapshot_iff :
      (s : TopicSnapshot I T)
      → InInt s
      → ((t' : TopicCell I T) × (from_snapshot s ≡ some t')) ↔ Acceptable s
  unfolding from_snapshot tail_offset new_topic_cell
  from_snapshot_iff s (inl (low, high), ints) =
      let negative = int_lt-negative s.base_offset low high in
      rw negative ((λ (t', e). absurd (cc e)), λ ok. absurd (cc ok.0))
  from_snapshot_iff s (inr small, ints) =
      let t : TopicCell I T = record {
        base_offset = s.base_offset;
        elements = s.elements;
        subscriptions = [];
        readers = [];
      } in
      let natural : int_lt s.base_offset 0 ≡ false =
        int_lt-small s.base_offset 0 (omega arith) (omega arith) ∙ ground arith in
      let whole : add_u64 s.base_offset (length s.elements) ≡ s.base_offset + length s.elements =
        omega arith in
      let rest_iff =
        restore_iff (s.base_offset + length s.elements) t s.subscriptions (omega arith) small
          ints in
      rw (natural, whole) ((λ h. (refl, rest_iff.0 h)), λ ok. rest_iff.1 ok.1)

  -- A topic whose snapshot is acceptable, whose tail is an `int` and which has one subscription for an
  -- id is restored from it with the same log and the same subscriptions.
  pub from_snapshot-snapshot :
      (t : TopicCell I T)
      → Assoc.Distinct t.subscriptions
      → t.base_offset + length t.elements < zero_i64
      → Acceptable (snapshot t)
      → (t' : TopicCell I T) × (from_snapshot (snapshot t) ≡ some t')
        × (t'.base_offset ≡ t.base_offset)
        × (t'.elements ≡ t.elements)
        × ((id : I) → subscription t' id ≡ subscription t id)
  unfolding from_snapshot snapshot tail_offset new_topic_cell Assoc.get
  from_snapshot-snapshot t distinct small ok =
      let blank : TopicCell I T = record {
        base_offset = t.base_offset;
        elements = t.elements;
        subscriptions = [];
        readers = [];
      } in
      let whole : add_u64 t.base_offset (length t.elements) ≡ t.base_offset + length t.elements =
        omega arith in
      let (t', e, (b, els, here)) =
        restore-Same (t.base_offset + length t.elements) blank t.subscriptions small distinct
          ok.1 in
      (t', rw (ok.0, whole) e, b, els, λ id. here id ∙ or_else-none (Assoc.get id t.subscriptions))
