-- ===== src/Crdt.antt =====
-- crdt.go: the stamp frontier of the distributed plane, the plane itself, and the wire form of a
-- frontier (the types of ipc.go). A Go map is an association list (Base/Assoc) whose order stands
-- for the order of `range`.
pub mod Frontier
pub mod Plane
pub mod Wire
mod Tests
use lazily_go.Base.{
  if◌then◌else◌, ◌∷◌, Bool, List, Option, [], false, map, none, some, true, ℕ, ℕ_comparable,
}
use lazily_go.Base.Assoc
use lazily_go.Base.Word.{zero_i64}
use lazily_go.Base.Sort.{sort}
use lazily_go.Hlc
use lazily_go.Hlc.{HlcStamp, Hlc, new_hlc}

-- `WireStamp`.
pub record WireStamp : Type 0 where
  pub wall_time : ℕ
  pub logical : ℕ
  pub peer : ℕ

-- `StampFrontierEntry`.
pub record StampFrontierEntry : Type 0 where
  pub peer : ℕ
  pub stamp : WireStamp

-- `HlcStamp.ToWire`.
unfoldable pub to_wire : HlcStamp → WireStamp
to_wire s = record { wall_time = s.wall_time; logical = s.logical; peer = s.peer }

-- `HlcStampFromWire`.
unfoldable pub from_wire : WireStamp → HlcStamp
from_wire s = record { wall_time = s.wall_time; logical = s.logical; peer = s.peer }

-- `StampFrontier`.
pub record StampFrontier : Type 0 where
  pub stamps : List (ℕ × HlcStamp)

unfoldable pub new_stamp_frontier : StampFrontier
new_stamp_frontier = record { stamps = [] }

-- `Get`; `none` is the pair with false.
unfoldable pub get : StampFrontier → ℕ → Option HlcStamp
get f peer = Assoc.get peer f.stamps

unfoldable pub knows : StampFrontier → ℕ → Bool
knows f peer = elim (Assoc.get peer f.stamps) [ none ↦ false | some s ↦ true ]

-- `cur, ok := f.stamps[peer]; ok && cur.GreaterEqual(stamp)`.
abbrev covered : Option HlcStamp → HlcStamp → Bool
covered none stamp = false
covered (some cur) stamp = Hlc.greater_equal cur stamp

unfoldable pub observe : StampFrontier → ℕ → HlcStamp → StampFrontier × Bool
observe f peer stamp =
    if covered (Assoc.get peer f.stamps) stamp
    then (f, false)
    else (record f { stamps = Assoc.put peer stamp f.stamps }, true)

-- The loop of `Merge`, over the entries that `range` still has to visit.
pub merge_from : StampFrontier → Bool → List (ℕ × HlcStamp) → StampFrontier × Bool
merge_from f changed [] = (f, changed)
merge_from f changed ((peer, stamp) ∷ rest) =
    let (f', one) = observe f peer stamp in merge_from f' (if one then true else changed) rest

unfoldable pub merge : StampFrontier → StampFrontier → StampFrontier × Bool
unfolding merge_from
merge f other = merge_from f false other.stamps

abbrev lower : Option HlcStamp → HlcStamp → HlcStamp
lower none stamp = stamp
lower (some least) stamp = Hlc.min_stamp least stamp

-- The loop of `Watermark`: `min` and `seen` are one option. A missing stamp returns at once.
pub watermark_from : StampFrontier → Option HlcStamp → List ℕ → Option HlcStamp
watermark_from f least [] = least
watermark_from f least (peer ∷ rest) = elim (Assoc.get peer f.stamps) [
  | none ↦ none
  | some stamp ↦ watermark_from f (some (lower least stamp)) rest
]

unfoldable pub watermark : StampFrontier → List ℕ → Option HlcStamp
unfolding watermark_from
watermark f membership = watermark_from f none membership

unfoldable pub peers : StampFrontier → List ℕ
peers f = sort (map (λ e. e.0) f.stamps)

abbrev pub zero_stamp : HlcStamp
zero_stamp = record { wall_time = zero_i64; logical = zero_i64; peer = zero_i64 }

-- A read of the map, which is the zero stamp for a key that is not there.
abbrev pub stamp_at : StampFrontier → ℕ → HlcStamp
stamp_at f p = elim (Assoc.get p f.stamps) [ none ↦ zero_stamp | some s ↦ s ]

-- `StampFrontier.ToWire`.
unfoldable pub frontier_to_wire : StampFrontier → List StampFrontierEntry
unfolding peers to_wire
frontier_to_wire f = map (λ p. record { peer = p; stamp = to_wire (stamp_at f p) }) (peers f)

-- The loop of `StampFrontierFromWire`.
pub observe_entries : StampFrontier → List StampFrontierEntry → StampFrontier
observe_entries f [] = f
observe_entries f (e ∷ es) = observe_entries (observe f e.peer (from_wire e.stamp)).0 es

-- `StampFrontierFromWire`.
unfoldable pub frontier_from_wire : List StampFrontierEntry → StampFrontier
unfolding observe_entries new_stamp_frontier
frontier_from_wire entries = observe_entries new_stamp_frontier entries

-- `CrdtPlane`.
pub record CrdtPlane : Type 0 where
  pub self : ℕ
  pub clock : Hlc
  pub frontier : StampFrontier
  pub members : List (ℕ × Unit {0})

unfoldable pub new_crdt_plane : ℕ → CrdtPlane
unfolding new_stamp_frontier new_hlc
new_crdt_plane self = record {
  self = self;
  clock = new_hlc self;
  frontier = new_stamp_frontier;
  members = [];
}

unfoldable pub membership : CrdtPlane → List ℕ
membership p = sort (map (λ e. e.0) p.members)

-- `CrdtPlane.Tick`.
unfoldable pub plane_tick : CrdtPlane → ℕ → CrdtPlane × HlcStamp
plane_tick p now_micros =
    let (clock, stamp) = Hlc.tick p.clock now_micros in
    (
      record p {
        members = Assoc.put p.self tt p.members;
        clock = clock;
        frontier = (observe p.frontier p.self stamp).0;
      },
      stamp,
    )

unfoldable pub observe_remote : CrdtPlane → HlcStamp → ℕ → CrdtPlane × HlcStamp
observe_remote p remote now_micros =
    let (clock, stamp) = Hlc.observe p.clock remote now_micros in
    (
      record p {
        members = Assoc.put remote.peer tt p.members;
        frontier = (observe p.frontier remote.peer remote).0;
        clock = clock;
      },
      stamp,
    )

unfoldable pub stability_watermark : CrdtPlane → Option HlcStamp
unfolding membership
stability_watermark p = watermark p.frontier (membership p)

abbrev pub at_or_below : HlcStamp → Option HlcStamp → Bool
at_or_below stamp none = false
at_or_below stamp (some w) = Hlc.less_equal stamp w

unfoldable pub is_collectable : CrdtPlane → HlcStamp → Bool
is_collectable p stamp = at_or_below stamp (stability_watermark p)
