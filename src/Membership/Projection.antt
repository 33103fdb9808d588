-- ===== src/Membership/Projection.antt =====
-- membership.go, `MembershipCell`: the alive set that a reader is told about.
use lazily_go.Base.{
  ◌&&◌, ◌+◌, ◌==◌, if◌then◌else◌, ◌↔◌, ◌∷◌, ◌≡◌, ◌≢◌, ◌≤◌, ◌⊎◌, Bool, Bool-cases, List, [], arith,
  false, inl, inr, not, refl, sym, true, ℕ, ℕ_comparable, bool_comparable, option_comparable,
}
use lazily_go.Cell.{SourceCell, new_source, set_value}
use lazily_go.Membership.{
  MembershipConfig, MembershipCore, PeerChangeEvent, alive_set, new_membership_core,
}
use lazily_go.Membership.Events.{MembershipOp, member_step}
use lazily_go.Base.Word.{add_u64, max_uint64}

-- `slices.Equal`.
abbrev pub slices_equal : List ℕ → List ℕ → Bool
slices_equal [] [] = true
slices_equal (x ∷ xs) (y ∷ ys) = (x == y) && slices_equal xs ys
slices_equal _ _ = false

slices_equal_iff : (xs ys : List ℕ) → (slices_equal xs ys ≡ true) ↔ (xs ≡ ys)
slices_equal_iff [] [] = (λ h. refl, λ h. refl)
slices_equal_iff (x ∷ xs) [] = (λ h. cc, λ h. cc)
slices_equal_iff [] (y ∷ ys) = (λ h. cc, λ h. cc)
slices_equal_iff (x ∷ xs) (y ∷ ys) = ground (arith, slices_equal_iff xs ys)

-- `MembershipCell`.
pub record MembershipCell : Type 0 where
  pub core : MembershipCore
  pub version : SourceCell ℕ
  pub alive_peers : List ℕ

-- `NewMembershipCell`.
unfoldable pub new_membership_cell : MembershipConfig → MembershipCell
new_membership_cell config = record {
  core = new_membership_core config;
  version = new_source 0;
  alive_peers = [];
}

-- `MembershipCell.refresh`.
unfoldable pub refresh_peers : MembershipCell → MembershipCell
unfolding alive_set
refresh_peers c =
    let next = alive_set c.core in
    if not (slices_equal c.alive_peers next)
    then record c { alive_peers = next; version = set_value c.version (add_u64 c.version.value 1) }
    else c

cascades-set_value :
    (v : SourceCell ℕ)
    → v.value ≤ max_uint64
    → ((set_value v (add_u64 v.value 1)).cascades ≡ v.cascades + 1)
      × ((set_value v (add_u64 v.value 1)).value ≤ max_uint64)
unfolding set_value
cascades-set_value v r =
    let other : (add_u64 v.value 1 == v.value) ≡ false = ground arith in
    rw (other, set_value) (refl, omega arith)

module _ (crosses : List ℕ → ℕ → Bool) (zero_crosses : Bool) where
  -- `Join`, `Heartbeat`, `Leave` and `Tick` of the cell.
  unfoldable pub cell_step : MembershipCell → MembershipOp → MembershipCell × List PeerChangeEvent
  unfolding refresh_peers
  cell_step c op =
      let (core, events) = member_step crosses zero_crosses c.core op in
      (refresh_peers (record c { core = core }), events)

  -- After a call on a cell whose version is a `uint64`, the projected set is the alive set of the core,
  -- and the readers were told once if that differs from the set that was projected before, and not at
  -- all if it does not.
  pub cell_step-projects :
      (c : MembershipCell) (op : MembershipOp)
      → c.version.value ≤ max_uint64
      → let c' = (cell_step c op).0 in
        (c'.alive_peers ≡ alive_set c'.core)
        × (c'.version.value ≤ max_uint64)
        × (((c'.alive_peers ≡ c.alive_peers) × (c'.version ≡ c.version))
            ⊎ ((c'.alive_peers ≢ c.alive_peers) × (c'.version.cascades ≡ c.version.cascades + 1)))
  unfolding cell_step refresh_peers
  cell_step-projects c op r =
      let core = (member_step crosses zero_crosses c.core op).0 in
      elim (Bool-cases (slices_equal c.alive_peers (alive_set core))) [
        | inl equals ↦
            rw (cell_step, refresh_peers, equals)
              ((slices_equal_iff c.alive_peers (alive_set core)).0 equals, r, inl (refl, refl))
        | inr differs ↦
            rw (cell_step, refresh_peers, differs)
              (
                refl,
                (cascades-set_value c.version r).1,
                inr (
                  λ e.
                      absurd
                        (cc ((slices_equal_iff c.alive_peers (alive_set core)).1 (sym e), differs)),
                  (cascades-set_value c.version r).0,
                ),
              )
      ]
