-- ===== src/Crdt/Tests.antt =====
-- Frontiers and planes at concrete stamps.
use lazily_go.Base.{
  ◌∷◌, ◌≡◌, All, [], inl, inr, refl, ℕ, ℕ_comparable, bool_comparable, option_comparable,
}
use lazily_go.Crdt.{
  CrdtPlane, StampFrontier, frontier_from_wire, frontier_to_wire, get, is_collectable, membership,
  merge, new_crdt_plane, stability_watermark, watermark,
}
use lazily_go.Crdt.Frontier.{KnownAbove, merge-IsSemilattice, watermark_bound}
use lazily_go.Crdt.Plane.{
  IsMember, IsPlane, is_collectable_observed, local, plane_run, plane_run-IsPlane, received,
}
use lazily_go.Crdt.Wire.{frontier_from_wire-to_wire}
use lazily_go.Hlc.{HlcStamp, less_equal, min_stamp}
use lazily_go.Base.Sort.{sort}
use lazily_go.Base.Assoc

abbrev stamp_of : ℕ → ℕ → HlcStamp
stamp_of w p = record { wall_time = w; logical = 0; peer = p }

abbrev ours : StampFrontier
ours = record { stamps = (1, stamp_of 5 1) ∷ (2, stamp_of 7 2) ∷ [] }

abbrev theirs : StampFrontier
theirs = record { stamps = (2, stamp_of 9 2) ∷ (3, stamp_of 1 3) ∷ [] }

merge-IsSemilattice_example :
    (get (merge ours theirs).0 2 ≡ get (merge theirs ours).0 2)
    × (get (merge (merge ours theirs).0 ours).0 2 ≡ get (merge ours (merge theirs ours).0).0 2)
    × (get (merge ours ours).0 2 ≡ get ours 2)
unfolding Assoc.get
merge-IsSemilattice_example =
    merge-IsSemilattice ours theirs ours 2 (refl, (refl, tt)) (refl, (refl, tt)) (refl, (refl, tt))

watermark_bound_example : All (KnownAbove ours (stamp_of 5 1)) (1 ∷ 2 ∷ [])
watermark_bound_example =
    watermark_bound ours (stamp_of 5 1) (1 ∷ 2 ∷ []) (unfold watermark Assoc.get min_stamp in refl)

abbrev plane : CrdtPlane
plane = record {
  self = 1;
  clock = record { peer = 1; last_wall = 5; last_logical = 0 };
  frontier = ours;
  members = (2, tt) ∷ (1, tt) ∷ [];
}

is_collectable_observed_example : KnownAbove ours (stamp_of 4 9) 2
is_collectable_observed_example =
    is_collectable_observed plane (stamp_of 4 9) 2
      (unfold is_collectable stability_watermark watermark sort Assoc.get min_stamp less_equal in
        refl)
      (unfold membership sort in inr (inl refl))

members_above : (q : ℕ) → IsMember plane q → KnownAbove ours (stamp_of 4 9) q
unfolding membership sort get Assoc.get less_equal
members_above q (inl e) = rw (← e) (stamp_of 5 1, refl, refl)
members_above q (inr (inl e)) = rw (← e) (stamp_of 7 2, refl, refl)
members_above q (inr (inr n)) = elim n [ ]

plane_run-IsPlane_example :
    IsPlane (plane_run (new_crdt_plane 1) (local 3 ∷ received (stamp_of 9 2) 4 ∷ []))
plane_run-IsPlane_example = plane_run-IsPlane 1 (local 3 ∷ received (stamp_of 9 2) 4 ∷ [])

frontier_from_wire-to_wire_example : get (frontier_from_wire (frontier_to_wire ours)) 2 ≡ get ours 2
frontier_from_wire-to_wire_example = frontier_from_wire-to_wire ours 2
