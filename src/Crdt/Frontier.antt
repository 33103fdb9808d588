-- ===== src/Crdt/Frontier.antt =====
-- crdt.go, `StampFrontier`: what a frontier knows after `Observe` and `Merge`, and the watermark.
use lazily_go.Base.{
  ◌==◌, if◌then◌else◌, ◌∙◌, ◌∷◌, ◌≡◌, ◌≢◌, ◌⊎◌, ==_iff, All, Any, Bool, Bool-cases, List, Option,
  Option-cases, [], ap, arith, false, inl, inr, none, refl, some, sym, true, ℕ, ℕ_comparable,
  bool_comparable, option_comparable,
}
use lazily_go.Crdt.{StampFrontier, get, merge_from, observe, merge, watermark_from, watermark}
use lazily_go.Base.Assoc
use lazily_go.Base.Assoc.{Distinct, get-put, put-Distinct}
use lazily_go.Hlc.{HlcStamp, max_stamp, less_equal, greater_equal, min_stamp}
use lazily_go.Hlc.Order.{less_equal_refl, less_equal_trans}

-- The larger of two stamps that may be missing.
abbrev pub join : Option HlcStamp → Option HlcStamp → Option HlcStamp
join none b = b
join (some a) none = some a
join (some a) (some b) = some (max_stamp a b)

-- A frontier built by the operations has one entry for a peer.
abbrev pub IsFrontier : StampFrontier → Type 0
IsFrontier f = Distinct f.stamps

pub observe-IsFrontier :
    (f : StampFrontier) (p : ℕ) (s : HlcStamp) → IsFrontier f → IsFrontier (observe f p s).0
unfolding observe
observe-IsFrontier f p s h = ground (arith, put-Distinct p s f.stamps h)

pub get-observe :
    (f : StampFrontier) (p q : ℕ) (s : HlcStamp)
    → get (observe f p s).0 q ≡ (if p == q then join (get f q) (some s) else get f q)
unfolding get observe max_stamp
get-observe f p q s = ground (arith, get-put p q s f.stamps)

pub merge_from-IsFrontier :
    (f : StampFrontier) (c : Bool) (l : List (ℕ × HlcStamp))
    → IsFrontier f
    → IsFrontier (merge_from f c l).0
unfolding merge_from
merge_from-IsFrontier f c [] h = h
merge_from-IsFrontier f c ((p, s) ∷ l) h =
    merge_from-IsFrontier (observe f p s).0 (if (observe f p s).1 then true else c) l
      (observe-IsFrontier f p s h)

max_stamp_assoc : (a b c : HlcStamp) → max_stamp (max_stamp a b) c ≡ max_stamp a (max_stamp b c)
unfolding max_stamp
max_stamp_assoc a b c = ground arith

max_stamp_comm : (a b : HlcStamp) → max_stamp a b ≡ max_stamp b a
unfolding max_stamp
max_stamp_comm a b = ground arith

max_stamp_idem : (a : HlcStamp) → max_stamp a a ≡ a
unfolding max_stamp
max_stamp_idem a = ground arith

pub join_assoc : (a b c : Option HlcStamp) → join (join a b) c ≡ join a (join b c)
join_assoc none b c = refl
join_assoc (some a) none c = refl
join_assoc (some a) (some b) none = refl
join_assoc (some a) (some b) (some c) = ap some (max_stamp_assoc a b c)

pub join_comm : (a b : Option HlcStamp) → join a b ≡ join b a
join_comm none none = refl
join_comm none (some b) = refl
join_comm (some a) none = refl
join_comm (some a) (some b) = ap some (max_stamp_comm a b)

pub join_idem : (a : Option HlcStamp) → join a a ≡ a
join_idem none = refl
join_idem (some a) = ap some (max_stamp_idem a)

pub join-none : (a : Option HlcStamp) → join a none ≡ a
join-none none = refl
join-none (some a) = refl

pub get-merge_from :
    (f : StampFrontier) (c : Bool) (l : List (ℕ × HlcStamp)) (q : ℕ)
    → Distinct l
    → get (merge_from f c l).0 q ≡ join (get f q) (Assoc.get q l)
unfolding merge_from Assoc.get
get-merge_from f c [] q d = sym (join-none (get f q))
get-merge_from f c ((p, s) ∷ l) q d =
    rw (get-merge_from (observe f p s).0 (if (observe f p s).1 then true else c) l q d.1) (
      rw (get-observe f p q s) (elim (Bool-cases (p == q)) [
        | inl same ↦
            rw same (rw (rw ((==_iff p q).0 same) at d.0) (join-none (join (get f q) (some s))))
        | inr other ↦ rw other refl
      ]))

-- After `Merge` the frontier holds for every peer the larger of the two stamps that were known.
pub get-merge :
    (f other : StampFrontier) (q : ℕ)
    → IsFrontier other
    → get (merge f other).0 q ≡ join (get f q) (get other q)
unfolding merge get
get-merge f other q d = get-merge_from f false other.stamps q d

pub merge-IsFrontier : (f other : StampFrontier) → IsFrontier f → IsFrontier (merge f other).0
unfolding merge
merge-IsFrontier f other h = merge_from-IsFrontier f false other.stamps h

-- `Merge` is commutative, associative and idempotent in what `Get` sees at every peer, so a frontier
-- does not depend on the order in which others are folded in. The frontiers are maps: they hold one
-- entry for a peer.
pub merge-IsSemilattice :
    (f g h : StampFrontier) (q : ℕ)
    → IsFrontier f
    → IsFrontier g
    → IsFrontier h
    → (get (merge f g).0 q ≡ get (merge g f).0 q)
      × (get (merge (merge f g).0 h).0 q ≡ get (merge f (merge g h).0).0 q)
      × (get (merge f f).0 q ≡ get f q)
merge-IsSemilattice f g h q df dg dh = (
  rw (get-merge f g q dg, get-merge g f q df) (join_comm (get f q) (get g q)),
  rw
      (
        get-merge (merge f g).0 h q dh,
        get-merge f g q dg,
        get-merge f (merge g h).0 q (merge-IsFrontier g h dg),
        get-merge g h q dh,
      )
      (join_assoc (get f q) (get g q) (get h q)),
  rw (get-merge f f q df) (join_idem (get f q)),
)

-- `Observe` reports a change exactly when the stamp lies strictly after the one that was known, and
-- leaves the frontier as it was otherwise.
observe_reports :
    (f : StampFrontier) (p : ℕ) (s : HlcStamp)
    → ((observe f p s).1 ≡ true → get (observe f p s).0 p ≢ get f p)
      × ((observe f p s).1 ≡ false → (observe f p s).0 ≡ f)
unfolding observe get greater_equal
observe_reports f p s = (λ h same. ground (arith, get-put p p s f.stamps), λ h. ground arith)

-- The stamps that a member's known stamp is compared with.
abbrev pub KnownAbove : StampFrontier → HlcStamp → ℕ → Type 0
KnownAbove f w p = (s : HlcStamp) × (get f p ≡ some s) × (less_equal w s ≡ true)

min_stamp_left : (a b : HlcStamp) → less_equal (min_stamp a b) a ≡ true
unfolding min_stamp
min_stamp_left a b = ground arith

min_stamp_right : (a b : HlcStamp) → less_equal (min_stamp a b) b ≡ true
unfolding min_stamp
min_stamp_right a b = ground arith

watermark_from_bound :
    (f : StampFrontier) (a w : HlcStamp) (ps : List ℕ)
    → watermark_from f (some a) ps ≡ some w
    → (less_equal w a ≡ true) × All (KnownAbove f w) ps
unfolding watermark_from get
watermark_from_bound f a w [] h = (ground (arith, less_equal_refl a), tt)
watermark_from_bound f a w (p ∷ ps) h = elim (Option-cases (Assoc.get p f.stamps)) [
  | inl e ↦ cc (rw (e, watermark_from) at h)
  | inr (s, e) ↦
      let (below, rest) =
        watermark_from_bound f (min_stamp a s) w ps (rw (e, watermark_from) at h) in
      (
        less_equal_trans w (min_stamp a s) a below (min_stamp_left a s),
        ((s, e, less_equal_trans w (min_stamp a s) s below (min_stamp_right a s)), rest),
      )
]

-- The watermark lies at or below the stamp known of every member: each of them has been observed.
pub watermark_bound :
    (f : StampFrontier) (w : HlcStamp) (ps : List ℕ)
    → watermark f ps ≡ some w
    → All (KnownAbove f w) ps
unfolding watermark watermark_from get
watermark_bound f w [] h = cc
watermark_bound f w (p ∷ ps) h = elim (Option-cases (Assoc.get p f.stamps)) [
  | inl e ↦ cc (rw (e, watermark_from) at h)
  | inr (s, e) ↦
      let (below, rest) = watermark_from_bound f s w ps (rw (e, watermark_from) at h) in
      ((s, e, below), rest)
]

min_stamp-cases : (a b : HlcStamp) → (min_stamp a b ≡ a) ⊎ (min_stamp a b ≡ b)
unfolding min_stamp
min_stamp-cases a b = elim (Bool-cases (less_equal a b)) [ inl h ↦ inl (rw h) | inr h ↦ inr (rw h) ]

least_source :
    (f : StampFrontier) (a s w : HlcStamp) (p : ℕ) (ps : List ℕ)
    → get f p ≡ some s
    → (w ≡ min_stamp a s) ⊎ Any (λ q. get f q ≡ some w) ps
    → (w ≡ a) ⊎ Any (λ q. get f q ≡ some w) (p ∷ ps)
least_source f a s w p ps e (inr later) = inr (inr later)
least_source f a s w p ps e (inl here) = elim (min_stamp-cases a s) [
  | inl left ↦ inl (here ∙ left)
  | inr right ↦ inr (inl (e ∙ ap some (sym (here ∙ right))))
]

watermark_from_total :
    (f : StampFrontier) (a : HlcStamp) (ps : List ℕ)
    → All (λ p. (s : HlcStamp) × (get f p ≡ some s)) ps
    → (w : HlcStamp) × (watermark_from f (some a) ps ≡ some w)
      × ((w ≡ a) ⊎ Any (λ p. get f p ≡ some w) ps)
unfolding watermark_from get
watermark_from_total f a [] known = (a, refl, inl refl)
watermark_from_total f a (p ∷ ps) ((s, e), known) =
    let (w, found, source) = watermark_from_total f (min_stamp a s) ps known in
    (w, rw (e, watermark_from) found, least_source f a s w p ps e source)

-- When a stamp is known of every member of a membership that is not empty, there is a watermark, and
-- it is the stamp of one of the members; with `watermark_bound`, the least of them.
pub watermark_total :
    (f : StampFrontier) (p : ℕ) (ps : List ℕ)
    → All (λ q. (s : HlcStamp) × (get f q ≡ some s)) (p ∷ ps)
    → (w : HlcStamp) × (watermark f (p ∷ ps) ≡ some w) × Any (λ q. get f q ≡ some w) (p ∷ ps)
unfolding watermark watermark_from get
watermark_total f p ps ((s, e), known) =
    let (w, found, source) = watermark_from_total f s ps known in
    (w, rw (e, watermark_from) found, head_source f w s p ps e source)
  where
    head_source :
        (f : StampFrontier) (w s : HlcStamp) (p : ℕ) (ps : List ℕ)
        → get f p ≡ some s
        → (w ≡ s) ⊎ Any (λ q. get f q ≡ some w) ps
        → Any (λ q. get f q ≡ some w) (p ∷ ps)
    head_source f w s p ps e (inl here) = inl (e ∙ ap some (sym here))
    head_source f w s p ps e (inr later) = inr later
