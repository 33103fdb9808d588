-- ===== src/Crdt/Plane.antt =====
-- crdt.go, `CrdtPlane`: membership, and what `IsCollectable` promises to the tombstone collection.
use lazily_go.Base.{
  ◌==◌, ◌∙◌, ◌∷◌, ◌≡◌, ◌⊎◌, All, All-of_In, Bool-cases, In, In-of_Any, List, Option, Option-cases,
  [], arith, inl, inr, none, refl, some, some_inj, sym, true, ℕ, ℕ_comparable,
}
use lazily_go.Crdt.{
  CrdtPlane, StampFrontier, get, is_collectable, membership, stability_watermark, at_or_below,
  watermark, new_crdt_plane, observe, observe_remote, plane_tick,
}
use lazily_go.Crdt.Frontier.{
  IsFrontier, KnownAbove, watermark_bound, watermark_total, get-observe, join, observe-IsFrontier,
}
use lazily_go.Hlc.{HlcStamp, less_equal, max_stamp, tick}
use lazily_go.Hlc.Order.{less_equal_trans}
use lazily_go.Base.Sort.{In-sort, sort}
use lazily_go.Base.Assoc

-- The peer belongs to the membership.
abbrev pub IsMember : CrdtPlane → ℕ → Type 0
IsMember p q = In q (membership p)

-- Every member has a stamp in the frontier, and the frontier is a map.
pub record IsPlane (p : CrdtPlane) : Type 0 where
  pub frontier : IsFrontier p.frontier
  pub observed : (q : ℕ) → IsMember p q → (s : HlcStamp) × (get p.frontier q ≡ some s)

collectable_under :
    (f : StampFrontier) (stamp w : HlcStamp) (q : ℕ) (ps : List ℕ)
    → less_equal stamp w ≡ true
    → All (KnownAbove f w) ps
    → In q ps
    → KnownAbove f stamp q
collectable_under f stamp w q [] h all i = elim i [ ]
collectable_under f stamp w q (p ∷ ps) h all (inl e) =
    let (s, known, above) = all.0 in (s, rw (← e) known, less_equal_trans stamp w s h above)
collectable_under f stamp w q (p ∷ ps) h all (inr i) = collectable_under f stamp w q ps h all.1 i

-- Of every member, the frontier of a plane that calls a stamp collectable holds a stamp at or above it.
pub is_collectable_observed :
    (p : CrdtPlane) (stamp : HlcStamp) (q : ℕ)
    → is_collectable p stamp ≡ true
    → IsMember p q
    → KnownAbove p.frontier stamp q
unfolding is_collectable
is_collectable_observed p stamp q h i = elim (Option-cases (stability_watermark p)) [
  | inl e ↦ cc (rw (e, is_collectable) at h)
  | inr (w, e) ↦
      collectable_under p.frontier stamp w q (membership p) (rw (e, is_collectable) at h)
        (watermark_bound p.frontier w (membership p) (unfold stability_watermark in e)) i
]

-- Conversely, a stamp that every member is known to have reached is collectable, once the plane has a
-- member.
observed-is_collectable :
    (p : CrdtPlane) (stamp : HlcStamp) (m : ℕ)
    → IsMember p m
    → ((q : ℕ) → IsMember p q → KnownAbove p.frontier stamp q)
    → is_collectable p stamp ≡ true
unfolding is_collectable stability_watermark
observed-is_collectable p stamp m i above = reached (membership p) i above
  where
    reached :
        (ps : List ℕ)
        → In m ps
        → ((q : ℕ) → In q ps → KnownAbove p.frontier stamp q)
        → at_or_below stamp (watermark p.frontier ps) ≡ true
    reached [] i above = elim i [ ]
    reached (x ∷ xs) i above =
        let (w, found, source) = watermark_total p.frontier x xs (
          All-of_In (λ q. (s : HlcStamp) × (get p.frontier q ≡ some s)) (x ∷ xs)
            (λ q j. let (s, known, _) = above q j in (s, known))) in
        let (q, j, known) = In-of_Any (λ q. get p.frontier q ≡ some w) (x ∷ xs) source in
        let (s, known', over) = above q j in
        rw found (ground (arith, some_inj (sym known ∙ known')))

joined_known : (a : Option HlcStamp) (s : HlcStamp) → (y : HlcStamp) × (join a (some s) ≡ some y)
joined_known none s = (s, refl)
joined_known (some a) s = (max_stamp a s, refl)

observe_known :
    (f : StampFrontier) (p q : ℕ) (s : HlcStamp)
    → ((p ≡ q) ⊎ ((x : HlcStamp) × (get f q ≡ some x)))
    → (y : HlcStamp) × (get (observe f p s).0 q ≡ some y)
observe_known f p q s h = elim (Bool-cases (p == q)) [
  | inl same ↦ let (y, e) = joined_known (get f q) s in (y, rw (get-observe f p q s) (rw same e))
  | inr other ↦ elim h [
    | inl e ↦ absurd (ground arith)
    | inr known ↦ (known.0, rw (get-observe f p q s) (rw other known.1))
  ]
]

IsMember-put :
    (p : CrdtPlane) (k q : ℕ)
    → In q (sort (Assoc.keys (Assoc.put k tt p.members)))
    → (k ≡ q) ⊎ IsMember p q
unfolding membership
IsMember-put p k q i = elim (Assoc.keys-put k q tt p.members ((In-sort q _).0 i)) [
  | inl e ↦ inl e
  | inr old ↦ inr ((In-sort q _).1 old)
]

-- The peer whose stamp is observed joins the members, and every member stays observed.
observe-IsPlane :
    (p : CrdtPlane) (k q : ℕ) (s : HlcStamp)
    → IsPlane p
    → In q (sort (Assoc.keys (Assoc.put k tt p.members)))
    → (y : HlcStamp) × (get (observe p.frontier k s).0 q ≡ some y)
observe-IsPlane p k q s v i = elim (IsMember-put p k q i) [
  | inl e ↦ observe_known p.frontier k q s (inl e)
  | inr old ↦ observe_known p.frontier k q s (inr (v.observed q old))
]

-- A local event keeps every member observed, and this peer is a member after it.
pub plane_tick-IsPlane : (p : CrdtPlane) (now : ℕ) → IsPlane p → IsPlane (plane_tick p now).0
unfolding plane_tick membership
plane_tick-IsPlane p now v = record {
  frontier = observe-IsFrontier p.frontier p.self (tick p.clock now).1 v.frontier;
  observed = λ q i. observe-IsPlane p p.self q (tick p.clock now).1 v i;
}

pub observe_remote-IsPlane :
    (p : CrdtPlane) (remote : HlcStamp) (now : ℕ)
    → IsPlane p
    → IsPlane (observe_remote p remote now).0
unfolding observe_remote membership
observe_remote-IsPlane p remote now v = record {
  frontier = observe-IsFrontier p.frontier remote.peer remote v.frontier;
  observed = λ q i. observe-IsPlane p remote.peer q remote v i;
}

new_crdt_plane-IsPlane : (self : ℕ) → IsPlane (new_crdt_plane self)
unfolding new_crdt_plane membership Assoc.get sort
new_crdt_plane-IsPlane self = record { frontier = tt; observed = λ q i. elim i [ ] }

-- The events of a plane.
pub data PlaneEvent : Type 0 where
  local : ℕ → PlaneEvent
  received : HlcStamp → ℕ → PlaneEvent

pub plane_step : CrdtPlane → PlaneEvent → CrdtPlane
plane_step p (local now) = (plane_tick p now).0
plane_step p (received remote now) = (observe_remote p remote now).0

pub plane_run : CrdtPlane → List PlaneEvent → CrdtPlane
plane_run p [] = p
plane_run p (e ∷ es) = plane_run (plane_step p e) es

plane_run_keeps : (p : CrdtPlane) (es : List PlaneEvent) → IsPlane p → IsPlane (plane_run p es)
unfolding plane_run plane_step
plane_run_keeps p [] v = v
plane_run_keeps p (local now ∷ es) v =
    plane_run_keeps (plane_tick p now).0 es (plane_tick-IsPlane p now v)
plane_run_keeps p (received remote now ∷ es) v =
    plane_run_keeps (observe_remote p remote now).0 es (observe_remote-IsPlane p remote now v)

-- After any local and remote events on a new plane, every member has a stamp in the frontier, which
-- holds one entry for a peer.
pub plane_run-IsPlane :
    (self : ℕ) (es : List PlaneEvent) → IsPlane (plane_run (new_crdt_plane self) es)
plane_run-IsPlane self es = plane_run_keeps (new_crdt_plane self) es (new_crdt_plane-IsPlane self)
