-- ===== src/Membership.antt =====
-- membership.go: the failure detector and the states of the peers. A peer is a number. The floating
-- point of `Phi` is a parameter: `crosses window elapsed` says that the level of suspicion is over the
-- threshold, and `zero_crosses` that 0 is. A sample is the whole number that is converted to a float.
pub mod Events
pub mod Projection
mod Tests
use lazily_go.Base.{
  ◌++◌, ◌-◌, if◌then◌else◌, ◌∷◌, Bool, List, Option, [], false, leb, length, ltb, max, none, some,
  true, ℕ, ℕ_comparable, bool_comparable, option_comparable,
}
use lazily_go.Base.Sort.{sort}
use lazily_go.Base.Assoc

-- `PeerState`.
pub data PeerState : Type 0 where
  alive suspect dead left : PeerState

-- `PeerChangeEvent`, with the fields that its kind uses.
pub data PeerChangeEvent : Type 0 where
  peer_joined peer_departed : ℕ → PeerChangeEvent
  peer_changed : ℕ → PeerState → PeerState → PeerChangeEvent

-- `MembershipConfig`, without what only `Phi` reads.
pub record MembershipConfig : Type 0 where
  pub suspect_timeout : ℕ
  pub max_samples : ℕ

-- `PhiAccrual`; `lastHeartbeat` is there once `hasLast` is set.
pub record PhiAccrual : Type 0 where
  pub window : List ℕ
  pub max_samples : ℕ
  pub last_heartbeat : Option ℕ

-- `saturatingSubU64`.
abbrev pub saturating_sub : ℕ → ℕ → ℕ
saturating_sub a b = if ltb a b then 0 else a - b

-- `NewPhiAccrual`.
abbrev pub new_phi_accrual : ℕ → PhiAccrual
new_phi_accrual max_samples = record {
  window = [];
  max_samples = if ltb max_samples 1 then 1 else max_samples;
  last_heartbeat = none;
}

-- `for len(d.window) > d.maxSamples { d.window = d.window[1:] }`.
pub newest : ℕ → List ℕ → List ℕ
newest max [] = []
newest max (x ∷ window) =
    let rest = newest max window in if ltb max (length (x ∷ window)) then rest else x ∷ window

-- `PhiAccrual.Heartbeat`.
unfoldable pub record_heartbeat : PhiAccrual → ℕ → PhiAccrual
unfolding newest
record_heartbeat d now = elim (d.last_heartbeat) [
  | none ↦ record d { last_heartbeat = some now }
  | some last ↦ record d {
    window = newest d.max_samples (d.window ++ saturating_sub now last ∷ []);
    last_heartbeat = some now;
  }
]

-- `peerRecord`; `suspectSince` is there while `hasSuspectSince` is set.
pub record PeerRecord : Type 0 where
  pub state : PeerState
  pub detector : PhiAccrual
  pub suspect_since : Option ℕ

-- `MembershipCore`.
pub record MembershipCore : Type 0 where
  pub config : MembershipConfig
  pub peers : List (ℕ × PeerRecord)

-- `NewMembershipCore`.
abbrev pub new_membership_core : MembershipConfig → MembershipCore
new_membership_core config = record { config = config; peers = [] }

-- `sortedPeers`.
abbrev pub sorted_peers : MembershipCore → List ℕ
sorted_peers m = sort (Assoc.keys m.peers)

-- `State`.
abbrev pub state_of : MembershipCore → ℕ → Option PeerState
state_of m peer = elim (Assoc.get peer m.peers) [ none ↦ none | some r ↦ some r.state ]

abbrev pub is_alive : Option PeerState → Bool
is_alive (some alive) = true
is_alive _ = false

-- The loop of `AliveSet`.
pub alive_among : MembershipCore → List ℕ → List ℕ
alive_among m [] = []
alive_among m (p ∷ ps) =
    let rest = alive_among m ps in if is_alive (state_of m p) then p ∷ rest else rest

-- `AliveSet`.
unfoldable pub alive_set : MembershipCore → List ℕ
unfolding alive_among
alive_set m = alive_among m (sorted_peers m)

abbrev pub put_peer : MembershipCore → ℕ → PeerRecord → MembershipCore
put_peer m peer r = record m { peers = Assoc.put peer r m.peers }

-- The `switch` of `Join`, on the state from before.
abbrev pub join_events : ℕ → Option PeerState → List PeerChangeEvent
join_events peer none = peer_joined peer ∷ []
join_events peer (some alive) = []
join_events peer (some suspect) = peer_changed peer suspect alive ∷ []
join_events peer (some dead) = peer_changed peer dead alive ∷ []
join_events peer (some left) = peer_changed peer left alive ∷ []

-- `Join`.
unfoldable pub join : MembershipCore → ℕ → ℕ → MembershipCore × List PeerChangeEvent
unfolding record_heartbeat
join m peer now = (
  put_peer m peer (record {
    state = alive;
    detector = record_heartbeat (new_phi_accrual m.config.max_samples) now;
    suspect_since = none;
  }),
  join_events peer (state_of m peer),
)

-- `Heartbeat` of a known peer, by its state.
abbrev pub refuted : ℕ → PeerRecord → PeerState → PeerRecord × List PeerChangeEvent
refuted peer r alive = (r, [])
refuted peer r left = (r, [])
refuted peer r suspect =
    (record r { state = alive; suspect_since = none }, peer_changed peer suspect alive ∷ [])
refuted peer r dead =
    (record r { state = alive; suspect_since = none }, peer_changed peer dead alive ∷ [])

-- `Heartbeat`.
unfoldable pub heartbeat : MembershipCore → ℕ → ℕ → MembershipCore × List PeerChangeEvent
unfolding join record_heartbeat
heartbeat m peer now = elim (Assoc.get peer m.peers) [
  | none ↦ join m peer now
  | some r ↦
      let (r', events) =
        refuted peer (record r { detector = record_heartbeat r.detector now }) r.state in
      (put_peer m peer r', events)
]

-- `Leave` of a known peer, by its state.
abbrev pub departs :
    MembershipCore → ℕ → PeerRecord → PeerState → MembershipCore × List PeerChangeEvent
departs m peer r left = (m, [])
departs m peer r _ =
    (put_peer m peer (record r { state = left; suspect_since = none }), peer_departed peer ∷ [])

-- `Leave`.
unfoldable pub leave : MembershipCore → ℕ → MembershipCore × List PeerChangeEvent
leave m peer = elim (Assoc.get peer m.peers) [ none ↦ (m, []) | some r ↦ departs m peer r r.state ]

module _ (crosses : List ℕ → ℕ → Bool) (zero_crosses : Bool) where
  -- `Phi(now) > threshold`: 0 while there is no estimate.
  abbrev pub phi_crosses : PhiAccrual → ℕ → Bool
  phi_crosses d now = elim (d.last_heartbeat) [
    | none ↦ zero_crosses
    | some last ↦ elim (d.window) [
      | [] ↦ zero_crosses
      | x ∷ window ↦ crosses (x ∷ window) (saturating_sub now last)
    ]
  ]

  abbrev pub expired : ℕ → Option ℕ → ℕ → Bool
  expired timeout none now = false
  expired timeout (some since) now = leb timeout (saturating_sub now since)

  -- The `switch` of `Tick`, on the state of the peer.
  abbrev pub escalate :
      MembershipCore → ℕ → ℕ → PeerRecord → PeerState → MembershipCore × List PeerChangeEvent
  escalate m now peer r alive =
      if phi_crosses r.detector now
      then (
        put_peer m peer (record r { state = suspect; suspect_since = some now }),
        peer_changed peer alive suspect ∷ [],
      )
      else (m, [])
  escalate m now peer r suspect =
      if expired m.config.suspect_timeout r.suspect_since now
      then (put_peer m peer (record r { state = dead }), peer_changed peer suspect dead ∷ [])
      else (m, [])
  escalate m now peer r dead = (m, [])
  escalate m now peer r left = (m, [])

  -- One round of the loop of `Tick`.
  unfoldable pub tick_peer : MembershipCore → ℕ → ℕ → MembershipCore × List PeerChangeEvent
  tick_peer m now peer = elim (Assoc.get peer m.peers) [
    | none ↦ (m, [])
    | some r ↦ escalate m now peer r r.state
  ]

  -- The loop of `Tick`.
  pub tick_peers : MembershipCore → ℕ → List ℕ → MembershipCore × List PeerChangeEvent
  unfolding tick_peer
  tick_peers m now [] = (m, [])
  tick_peers m now (peer ∷ peers) =
      let (m', events) = tick_peer m now peer in
      let (m'', more) = tick_peers m' now peers in (m'', events ++ more)

  -- `Tick`.
  unfoldable pub member_tick : MembershipCore → ℕ → MembershipCore × List PeerChangeEvent
  unfolding tick_peers
  member_tick m now = tick_peers m now (sorted_peers m)
