-- ===== src/Coordination.antt =====
-- coordination.go: the lease with its fencing token, and leadership and the lock over it. The semaphore
-- and the barrier stand in Coordination/Permits and Coordination/Barrier. Each reactive cell is its core
-- with the projection that `refresh` writes. Times and tokens are `uint64`s. A peer is any type with
-- `==`.
pub mod Lease
pub mod Permits
pub mod Barrier
mod Tests
use lazily_go.Base.{
  ◌&&◌, ◌==◌, if◌then◌else◌, ◌||◌, Bool, Comparable, Option, equal, false, leb, none, not, some,
  true, ℕ, ℕ_comparable, bool_comparable, option_comparable,
}
use lazily_go.Cell.{SourceCell, new_source, set_value}
use lazily_go.Base.Word.{add_u64, sub_u64}
use lazily_go.Base.Assoc

-- `LeaseCore`.
pub record LeaseCore {ℓ} (P : Type ℓ) : Type ℓ where
  pub holder : Option P
  pub expiry : ℕ
  pub fence : ℕ

-- `LeaseCell`.
pub record LeaseCell {ℓ} (P : Type ℓ) : Type ℓ where
  pub core : LeaseCore P
  pub holder : SourceCell (Option P)

pub data LeaderRole : Type 0 where
  leader follower candidate : LeaderRole

-- `LeaderCell`.
pub record LeaderCell {ℓ} (P : Type ℓ) : Type ℓ where
  pub core : LeaseCore P
  pub me : P
  pub current_leader : SourceCell (Option P)

-- `LockCell`.
pub record LockCell {ℓ} (P : Type ℓ) : Type ℓ where
  pub core : LeaseCore P
  pub is_locked : SourceCell Bool

abbrev pub present {ℓ} : {A : Type ℓ} → Option A → Bool
present none = false
present (some a) = true

module _ {ℓ} {P : Type ℓ} where
  unfoldable pub new_lease_core : LeaseCore P
  new_lease_core = record { holder = none; expiry = 0; fence = 0 }

  unfoldable pub is_expired : LeaseCore P → ℕ → Bool
  is_expired c now = present c.holder && leb c.expiry now

  unfoldable pub is_held : LeaseCore P → ℕ → Bool
  unfolding is_expired
  is_held c now = present c.holder && not (is_expired c now)

  unfoldable pub holder_opt : LeaseCore P → ℕ → Option P
  unfolding is_held
  holder_opt c now = if is_held c now then c.holder else none

  -- `LeaseCore.Tick`.
  unfoldable pub lease_tick : LeaseCore P → ℕ → LeaseCore P × Bool
  unfolding is_expired
  lease_tick c now = if is_expired c now then (record c { holder = none }, true) else (c, false)

module _ {ℓ} {P : Type ℓ} ⦃e : Comparable P⦄ where
  -- `c.holder.Present && c.holder.Value == peer`.
  abbrev pub held_by : Option P → P → Bool
  held_by none peer = false
  held_by (some h) peer = equal h peer

  -- `LeaseCore.Acquire`; `none` is the pair with false.
  unfoldable pub acquire : LeaseCore P → P → ℕ → ℕ → LeaseCore P × Option ℕ
  unfolding is_expired
  acquire c peer now ttl =
      if not (present c.holder) || is_expired c now
      then (
        record { holder = some peer; expiry = add_u64 now ttl; fence = add_u64 c.fence 1 },
        some (add_u64 c.fence 1),
      )
      else if held_by c.holder peer
      then (record c { expiry = add_u64 now ttl }, some c.fence)
      else (c, none)

  unfoldable pub renew : LeaseCore P → P → ℕ → ℕ → LeaseCore P × Bool
  unfolding is_held
  renew c peer now ttl =
      if is_held c now && held_by c.holder peer
      then (record c { expiry = add_u64 now ttl }, true)
      else (c, false)

  unfoldable pub release : LeaseCore P → P → LeaseCore P
  release c peer = if held_by c.holder peer then record c { holder = none } else c

  -- `LeaseCell`: each method runs the core and projects the live holder.
  unfoldable pub lease_refresh : LeaseCell P → ℕ → LeaseCell P
  unfolding holder_opt set_value
  lease_refresh c now = record c { holder = set_value c.holder (holder_opt c.core now) }

  unfoldable pub cell_acquire : LeaseCell P → P → ℕ → ℕ → LeaseCell P × Option ℕ
  unfolding acquire lease_refresh
  cell_acquire c peer now ttl =
      let (core, fence) = acquire c.core peer now ttl in
      (lease_refresh (record c { core = core }) now, fence)

  unfoldable pub cell_renew : LeaseCell P → P → ℕ → ℕ → LeaseCell P × Bool
  unfolding renew lease_refresh
  cell_renew c peer now ttl =
      let (core, renewed) = renew c.core peer now ttl in
      (lease_refresh (record c { core = core }) now, renewed)

  unfoldable pub cell_release : LeaseCell P → P → ℕ → LeaseCell P
  unfolding release lease_refresh
  cell_release c peer now = lease_refresh (record c { core = release c.core peer }) now

  unfoldable pub cell_tick : LeaseCell P → ℕ → LeaseCell P × Bool
  unfolding lease_tick lease_refresh
  cell_tick c now =
      let (core, expired) = lease_tick c.core now in
      (lease_refresh (record c { core = core }) now, expired)

  -- `LeaderCell.Role`.
  unfoldable pub role : LeaderCell P → ℕ → LeaderRole
  unfolding holder_opt
  role c now = elim (holder_opt c.core now) [
    | none ↦ candidate
    | some h ↦ if equal h c.me then leader else follower
  ]

  unfoldable pub leader_refresh : LeaderCell P → ℕ → LeaderCell P
  unfolding holder_opt set_value
  leader_refresh c now = record c {
    current_leader = set_value c.current_leader (holder_opt c.core now);
  }

  -- `LeaderCell.Contend`; `Campaign` is this for `me`.
  unfoldable pub contend : LeaderCell P → P → ℕ → ℕ → LeaderCell P × LeaderRole
  unfolding acquire leader_refresh role
  contend c peer now ttl =
      let c' = leader_refresh (record c { core = (acquire c.core peer now ttl).0 }) now in
      (c', role c' now)

  unfoldable pub campaign : LeaderCell P → ℕ → ℕ → LeaderCell P × LeaderRole
  unfolding contend
  campaign c now ttl = contend c c.me now ttl

  unfoldable pub leader_tick : LeaderCell P → ℕ → LeaderCell P × LeaderRole
  unfolding lease_tick leader_refresh role
  leader_tick c now =
      let c' = leader_refresh (record c { core = (lease_tick c.core now).0 }) now in
      (c', role c' now)

  -- `LockCell`.
  unfoldable pub lock_refresh : LockCell P → ℕ → LockCell P
  unfolding is_held set_value
  lock_refresh c now = record c { is_locked = set_value c.is_locked (is_held c.core now) }

  unfoldable pub lock_acquire : LockCell P → P → ℕ → ℕ → LockCell P × Option ℕ
  unfolding acquire lock_refresh
  lock_acquire c peer now ttl =
      let (core, fence) = acquire c.core peer now ttl in
      (lock_refresh (record c { core = core }) now, fence)

  unfoldable pub lock_release : LockCell P → P → ℕ → LockCell P
  unfolding release lock_refresh
  lock_release c peer now = lock_refresh (record c { core = release c.core peer }) now

  unfoldable pub lock_tick : LockCell P → ℕ → LockCell P × Bool
  unfolding lease_tick lock_refresh
  lock_tick c now =
      let (core, expired) = lease_tick c.core now in
      (lock_refresh (record c { core = core }) now, expired)

-- `LockCell.Validate`.
unfoldable pub validate {ℓ} : {P : Type ℓ} → LockCell P → ℕ → Bool
validate c fence = c.core.fence == fence
