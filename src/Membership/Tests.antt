-- ===== src/Membership/Tests.antt =====
-- membership.go: runs, and the theorem on concrete calls.
use lazily_go.Base.{
  ◌+◌, ◌∷◌, ◌≡◌, ◌≢◌, ◌≤◌, ◌⊎◌, Bool, List, [], arith, false, ltb, none, refl, ℕ, ℕ_comparable,
  bool_comparable, option_comparable,
}
use lazily_go.Membership.{
  MembershipConfig, alive, dead, heartbeat, join, leave, member_tick, new_membership_core,
  peer_changed, peer_departed, peer_joined, record_heartbeat, state_of, suspect, tick_peer,
  alive_set,
}
use lazily_go.Membership.Events.{
  MembershipOp, heartbeats, joins, leaves, member_run, member_run-Accounts, observe_all, ticks,
}
use lazily_go.Base.Sort.{sort}
use lazily_go.Base.Assoc
use lazily_go.Cell.{new_source}
use lazily_go.Membership.Projection.{MembershipCell, cell_step, cell_step-projects}
use lazily_go.Base.Word.{max_uint64}

abbrev config : MembershipConfig
config = record { suspect_timeout = 5; max_samples = 3 }

-- More than ten ticks without a heartbeat are suspicious.
abbrev crosses : List ℕ → ℕ → Bool
crosses window elapsed = ltb 10 elapsed

abbrev calls : List MembershipOp
calls =
    joins 7 0
    ∷ heartbeats 7 2
    ∷ heartbeats 3 2
    ∷ ticks 20
    ∷ ticks 26
    ∷ leaves 3
    ∷ heartbeats 7 27
    ∷ []

run_events :
    (member_run crosses false (new_membership_core config) calls).1
    ≡ peer_joined 7
      ∷ peer_joined 3
      ∷ peer_changed 7 alive suspect
      ∷ peer_changed 7 suspect dead
      ∷ peer_departed 3
      ∷ peer_changed 7 dead alive
      ∷ []
unfolding member_run join heartbeat leave member_tick tick_peer record_heartbeat Assoc.get Assoc.put
    sort
run_events = refl

member_run-Accounts_example :
    let (m, events) = member_run crosses false (new_membership_core config) calls in
    state_of m 7 ≡ observe_all 7 none events
member_run-Accounts_example = member_run-Accounts crosses false config calls 7

abbrev cell : MembershipCell
cell = record { core = new_membership_core config; version = new_source 0; alive_peers = [] }

small : cell.version.value ≤ max_uint64
unfolding new_source
small = omega arith

cell_step-projects_example :
    let c = (cell_step crosses false cell (joins 7 0)).0 in
    (c.alive_peers ≡ alive_set c.core)
    × (c.version.value ≤ max_uint64)
    × (((c.alive_peers ≡ []) × (c.version ≡ cell.version))
        ⊎ ((c.alive_peers ≢ []) × (c.version.cascades ≡ cell.version.cascades + 1)))
cell_step-projects_example = cell_step-projects crosses false cell (joins 7 0) small

joined : (cell_step crosses false cell (joins 7 0)).0.alive_peers ≡ 7 ∷ []
unfolding cell_step join record_heartbeat Assoc.get Assoc.put sort alive_set
joined = refl
