-- ===== src/Membership/Events.antt =====
-- membership.go: an observer of the change events, and the states of the peers.
use lazily_go.Base.{
  ◌&&◌, ◌++◌, ◌==◌, if◌then◌else◌, ◌∙◌, ◌∷◌, ◌≡◌, ◌≢◌, ==-self, ==_iff, All, Bool, Bool-cases, List,
  Option, Option-cases, [], ap, arith, false, if_elim, inl, inr, none, refl, some, subst, sym, true,
  ℕ, ℕ_comparable, bool_comparable, option_comparable,
}
use lazily_go.Membership.{
  MembershipCore, PeerChangeEvent, PeerRecord, PeerState, alive, dead, join, left, peer_changed,
  peer_departed, peer_joined, put_peer, state_of, suspect, heartbeat, join_events, record_heartbeat,
  refuted, MembershipConfig, departs, escalate, expired, leave, member_tick, new_membership_core,
  phi_crosses, sorted_peers, tick_peer, tick_peers,
}
use lazily_go.Base.Assoc

-- The calls on a membership core.
pub data MembershipOp : Type 0 where
  joins heartbeats : ℕ → ℕ → MembershipOp
  leaves ticks : ℕ → MembershipOp

-- What an observer of the events takes the state of a peer to be: a change counts only from the state
-- that the observer has.
abbrev pub same_state : PeerState → PeerState → Bool
same_state alive alive = true
same_state suspect suspect = true
same_state dead dead = true
same_state left left = true
same_state _ _ = false

abbrev pub stands_in : Option PeerState → PeerState → Bool
stands_in none from = false
stands_in (some s) from = same_state s from

abbrev pub observed : ℕ → Option PeerState → PeerChangeEvent → Option PeerState
observed p seen (peer_joined q) = if q == p then some alive else seen
observed p seen (peer_departed q) = if q == p then some left else seen
observed p seen (peer_changed q from to) = if (q == p) && stands_in seen from then some to else seen

pub observe_all : ℕ → Option PeerState → List PeerChangeEvent → Option PeerState
observe_all p seen [] = seen
observe_all p seen (event ∷ events) = observe_all p (observed p seen event) events

observe_all-append :
    (p : ℕ) (seen : Option PeerState) (es fs : List PeerChangeEvent)
    → observe_all p seen (es ++ fs) ≡ observe_all p (observe_all p seen es) fs
unfolding observe_all
observe_all-append p seen [] fs = refl
observe_all-append p seen (e ∷ es) fs = observe_all-append p (observed p seen e) es fs

-- The events of a call account for its effect on every peer.
abbrev pub Accounts : MembershipCore → MembershipCore × List PeerChangeEvent → Type 0
Accounts m r = (p : ℕ) → state_of r.0 p ≡ observe_all p (state_of m p) r.1

state_of-put :
    (m : MembershipCore) (q p : ℕ) (r : PeerRecord)
    → state_of (put_peer m q r) p ≡ (if q == p then some r.state else state_of m p)
state_of-put m q p r = ground (arith, Assoc.get-put q p r m.peers)

-- Every event is about one peer.
abbrev about : PeerChangeEvent → ℕ
about (peer_joined q) = q
about (peer_departed q) = q
about (peer_changed q from to) = q

not_equal : (a p q : ℕ) → a ≡ q → q ≢ p → (a == p) ≡ false
not_equal a p q same other = elim (Bool-cases (a == p)) [
  | inl equals ↦ absurd (other (sym same ∙ (==_iff a p).0 equals))
  | inr differs ↦ differs
]

observed-other :
    (p q : ℕ) (seen : Option PeerState) (e : PeerChangeEvent)
    → q ≢ p
    → about e ≡ q
    → observed p seen e ≡ seen
observed-other p q seen (peer_joined a) other same = rw (not_equal a p q same other) refl
observed-other p q seen (peer_departed a) other same = rw (not_equal a p q same other) refl
observed-other p q seen (peer_changed a from to) other same = rw (not_equal a p q same other) refl

observe_all-other :
    (p q : ℕ) (seen : Option PeerState) (es : List PeerChangeEvent)
    → q ≢ p
    → All (λ e. about e ≡ q) es
    → observe_all p seen es ≡ seen
unfolding observe_all
observe_all-other p q seen [] other all = refl
observe_all-other p q seen (e ∷ es) other all =
    ap (λ s. observe_all p s es) (observed-other p q seen e other all.0)
    ∙ observe_all-other p q seen es other all.1

-- A call that writes one peer, and whose events are about it and lead to its state.
Accounts-put :
    (m : MembershipCore) (q : ℕ) (r : PeerRecord) (es : List PeerChangeEvent)
    → All (λ e. about e ≡ q) es
    → observe_all q (state_of m q) es ≡ some r.state
    → Accounts m (put_peer m q r, es)
Accounts-put m q r es all leads p = elim (Bool-cases (q == p)) [
  | inl here ↦
      subst (λ x. state_of (put_peer m q r) x ≡ observe_all x (state_of m x) es)
        ((==_iff q p).0 here) (state_of-put m q q r ∙ rw (==-self q) (sym leads))
  | inr other ↦
      state_of-put m q p r
      ∙ rw other (
          sym (
            observe_all-other p q (state_of m p) es (λ e. absurd (cc ((==_iff q p).1 e, other)))
              all))
]

Accounts-nothing : (m : MembershipCore) → Accounts m (m, [])
unfolding observe_all
Accounts-nothing m p = refl

joined_observed : (q : ℕ) (o : Option PeerState) → observe_all q o (join_events q o) ≡ some alive
unfolding observe_all
joined_observed q none = rw (==-self q) refl
joined_observed q (some alive) = refl
joined_observed q (some suspect) = rw (==-self q) refl
joined_observed q (some dead) = rw (==-self q) refl
joined_observed q (some left) = rw (==-self q) refl

joined_about : (q : ℕ) (o : Option PeerState) → All (λ e. about e ≡ q) (join_events q o)
joined_about q none = (refl, tt)
joined_about q (some alive) = tt
joined_about q (some suspect) = (refl, tt)
joined_about q (some dead) = (refl, tt)
joined_about q (some left) = (refl, tt)

join-Accounts : (m : MembershipCore) (peer now : ℕ) → Accounts m (join m peer now)
unfolding join
join-Accounts m peer now =
    Accounts-put m peer _ (join_events peer (state_of m peer)) (joined_about peer (state_of m peer))
      (joined_observed peer (state_of m peer))

refuted-Accounts :
    (m : MembershipCore) (peer : ℕ) (r : PeerRecord) (s : PeerState)
    → state_of m peer ≡ some s
    → r.state ≡ s
    → Accounts m (put_peer m peer (refuted peer r s).0, (refuted peer r s).1)
unfolding observe_all
refuted-Accounts m peer r alive seen is = Accounts-put m peer r [] tt (seen ∙ ap some (sym is))
refuted-Accounts m peer r left seen is = Accounts-put m peer r [] tt (seen ∙ ap some (sym is))
refuted-Accounts m peer r suspect seen is =
    Accounts-put m peer _ (peer_changed peer suspect alive ∷ []) (refl, tt)
      (rw (seen, ==-self peer) refl)
refuted-Accounts m peer r dead seen is =
    Accounts-put m peer _ (peer_changed peer dead alive ∷ []) (refl, tt)
      (rw (seen, ==-self peer) refl)

heartbeat-Accounts : (m : MembershipCore) (peer now : ℕ) → Accounts m (heartbeat m peer now)
unfolding heartbeat
heartbeat-Accounts m peer now = elim (Option-cases (Assoc.get peer m.peers)) [
  | inl gone ↦ rw (heartbeat, gone) (join-Accounts m peer now)
  | inr (r, there) ↦
      rw (heartbeat, there)
        (refuted-Accounts m peer (record r { detector = record_heartbeat r.detector now }) r.state
          (rw (state_of, there) refl) refl)
]

departs-Accounts :
    (m : MembershipCore) (peer : ℕ) (r : PeerRecord) (s : PeerState)
    → Accounts m (departs m peer r s)
unfolding observe_all
departs-Accounts m peer r left = Accounts-nothing m
departs-Accounts m peer r alive =
    Accounts-put m peer _ (peer_departed peer ∷ []) (refl, tt) (rw (==-self peer) refl)
departs-Accounts m peer r suspect =
    Accounts-put m peer _ (peer_departed peer ∷ []) (refl, tt) (rw (==-self peer) refl)
departs-Accounts m peer r dead =
    Accounts-put m peer _ (peer_departed peer ∷ []) (refl, tt) (rw (==-self peer) refl)

leave-Accounts : (m : MembershipCore) (peer : ℕ) → Accounts m (leave m peer)
unfolding leave
leave-Accounts m peer = elim (Option-cases (Assoc.get peer m.peers)) [
  | inl gone ↦ rw (leave, gone) (Accounts-nothing m)
  | inr (r, there) ↦ rw (leave, there) (departs-Accounts m peer r r.state)
]

Accounts-then :
    (m : MembershipCore) (r s : MembershipCore × List PeerChangeEvent)
    → Accounts m r
    → Accounts r.0 s
    → Accounts m (s.0, r.1 ++ s.1)
Accounts-then m r s first second p =
    second p
    ∙ ap (λ x. observe_all p x s.1) (first p)
    ∙ sym (observe_all-append p (state_of m p) r.1 s.1)

module _ (crosses : List ℕ → ℕ → Bool) (zero_crosses : Bool) where
  escalate-Accounts :
      (m : MembershipCore) (now peer : ℕ) (r : PeerRecord) (s : PeerState)
      → state_of m peer ≡ some s
      → Accounts m (escalate crosses zero_crosses m now peer r s)
  unfolding observe_all
  escalate-Accounts m now peer r alive seen =
      if_elim (Accounts m) (phi_crosses crosses zero_crosses r.detector now)
        (λ _.
          Accounts-put m peer _ (peer_changed peer alive suspect ∷ []) (refl, tt)
            (rw (seen, ==-self peer) refl))
        (λ _. Accounts-nothing m)
  escalate-Accounts m now peer r suspect seen =
      if_elim (Accounts m)
        (expired crosses zero_crosses m.config.suspect_timeout r.suspect_since now)
        (λ _.
          Accounts-put m peer _ (peer_changed peer suspect dead ∷ []) (refl, tt)
            (rw (seen, ==-self peer) refl))
        (λ _. Accounts-nothing m)
  escalate-Accounts m now peer r dead seen = Accounts-nothing m
  escalate-Accounts m now peer r left seen = Accounts-nothing m

  tick_peer-Accounts :
      (m : MembershipCore) (now peer : ℕ) → Accounts m (tick_peer crosses zero_crosses m now peer)
  unfolding tick_peer
  tick_peer-Accounts m now peer = elim (Option-cases (Assoc.get peer m.peers)) [
    | inl gone ↦ rw (tick_peer, gone) (Accounts-nothing m)
    | inr (r, there) ↦
        rw (tick_peer, there) (escalate-Accounts m now peer r r.state (rw (state_of, there) refl))
  ]

  tick_peers-Accounts :
      (m : MembershipCore) (now : ℕ) (peers : List ℕ)
      → Accounts m (tick_peers crosses zero_crosses m now peers)
  unfolding tick_peers
  tick_peers-Accounts m now [] = Accounts-nothing m
  tick_peers-Accounts m now (peer ∷ peers) =
      let r = tick_peer crosses zero_crosses m now peer in
      Accounts-then m r (tick_peers crosses zero_crosses r.0 now peers)
        (tick_peer-Accounts m now peer) (tick_peers-Accounts r.0 now peers)

  abbrev pub member_step : MembershipCore → MembershipOp → MembershipCore × List PeerChangeEvent
  member_step m (joins peer now) = join m peer now
  member_step m (heartbeats peer now) = heartbeat m peer now
  member_step m (leaves peer) = leave m peer
  member_step m (ticks now) = member_tick crosses zero_crosses m now

  member_step-Accounts : (m : MembershipCore) (op : MembershipOp) → Accounts m (member_step m op)
  unfolding member_tick
  member_step-Accounts m (joins peer now) = join-Accounts m peer now
  member_step-Accounts m (heartbeats peer now) = heartbeat-Accounts m peer now
  member_step-Accounts m (leaves peer) = leave-Accounts m peer
  member_step-Accounts m (ticks now) = tick_peers-Accounts m now (sorted_peers m)

  -- The core after the calls, and all the events that they returned.
  unfoldable pub member_run :
      MembershipCore → List MembershipOp → MembershipCore × List PeerChangeEvent
  member_run m [] = (m, [])
  member_run m (op ∷ ops) =
      let (m', events) = member_step m op in
      let (m'', more) = member_run m' ops in (m'', events ++ more)

  member_run-step : (m : MembershipCore) (ops : List MembershipOp) → Accounts m (member_run m ops)
  unfolding member_run
  member_run-step m [] = Accounts-nothing m
  member_run-step m (op ∷ ops) =
      let r = member_step m op in
      Accounts-then m r (member_run r.0 ops) (member_step-Accounts m op) (member_run-step r.0 ops)

  -- Over any calls on a new core, an observer who only sees the events, and takes a change to count
  -- only where it starts from the state that the observer has, has the state of every peer.
  pub member_run-Accounts :
      (config : MembershipConfig) (ops : List MembershipOp) (p : ℕ)
      → let (m, events) = member_run (new_membership_core config) ops in
        state_of m p ≡ observe_all p none events
  unfolding Assoc.get
  member_run-Accounts config ops p = member_run-step (new_membership_core config) ops p
