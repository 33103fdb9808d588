-- ===== src/Presence.antt =====
-- presence.go, the ephemeral plane: a single value and a map of values that lapse on the logical clock.
-- Expiries are uint64. A value with its `present` flag is an option, since an absent one is always zero.
use lazily_go.Base.{
  if◌then◌else◌, ◌∷◌, Comparable, List, Option, [], leb, ltb, none, some, ℕ, ℕ_comparable,
  bool_comparable, option_comparable,
}
use lazily_go.Base.Word.{add_u64}
use lazily_go.Base.Assoc
pub mod Lapses
mod Tests

-- `EphemeralCore`.
pub record EphemeralCore {ℓ} (V : Type ℓ) : Type ℓ where
  pub current : Option V
  pub expiry : ℕ

module _ {ℓ} {V : Type ℓ} where
  -- `NewEphemeralCore`.
  abbrev pub new_ephemeral_core : EphemeralCore V
  new_ephemeral_core = record { current = none; expiry = 0 }

  -- `EphemeralCore.Set`.
  unfoldable pub ephemeral_set : EphemeralCore V → V → ℕ → ℕ → EphemeralCore V
  ephemeral_set c v now ttl = record { current = some v; expiry = add_u64 now ttl }

  -- `EphemeralCore.Tick`.
  unfoldable pub ephemeral_tick : EphemeralCore V → ℕ → EphemeralCore V
  ephemeral_tick c now = if leb c.expiry now then record c { current = none } else c

-- `ephemeralEntry`.
pub record EphemeralEntry {κ} (V : Type κ) : Type κ where
  pub value : V
  pub expiry : ℕ

-- `EphemeralMapCore`.
pub record EphemeralMapCore {ℓ κ} (K : Type ℓ) (V : Type κ) : Type (ℓ ⊔ κ) where
  pub entries : List (K × EphemeralEntry V)

module _ {κ} {V : Type κ} where
  -- The tests of `EphemeralMapCore.Get`.
  abbrev pub live : ℕ → Option (EphemeralEntry V) → Option V
  live now none = none
  live now (some e) = if leb e.expiry now then none else some e.value

module _ {ℓ κ} {K : Type ℓ} {V : Type κ} where
  -- `NewEphemeralMapCore`.
  abbrev pub new_map_core : EphemeralMapCore K V
  new_map_core = record { entries = [] }

  -- The loop of `EphemeralMapCore.Tick`.
  abbrev pub unlapsed : ℕ → List (K × EphemeralEntry V) → List (K × EphemeralEntry V)
  unlapsed now [] = []
  unlapsed now ((k, e) ∷ es) =
      let rest = unlapsed now es in if leb e.expiry now then rest else (k, e) ∷ rest

  -- `EphemeralMapCore.Tick`.
  unfoldable pub map_tick : EphemeralMapCore K V → ℕ → EphemeralMapCore K V
  map_tick m now = record m { entries = unlapsed now m.entries }

  -- The loop of `EphemeralMapCore.Present`.
  abbrev pub live_entries : ℕ → List (K × EphemeralEntry V) → List (K × V)
  live_entries now [] = []
  live_entries now ((k, e) ∷ es) =
      let rest = live_entries now es in if ltb now e.expiry then (k, e.value) ∷ rest else rest

  -- `EphemeralMapCore.Present`.
  unfoldable pub present_at : EphemeralMapCore K V → ℕ → List (K × V)
  present_at m now = live_entries now m.entries

module _ {ℓ κ} {K : Type ℓ} {V : Type κ} ⦃c : Comparable K⦄ where
  -- `EphemeralMapCore.Set`.
  unfoldable pub map_set : EphemeralMapCore K V → K → V → ℕ → ℕ → EphemeralMapCore K V
  map_set m key v now ttl = record m {
    entries = Assoc.put key (record { value = v; expiry = add_u64 now ttl }) m.entries;
  }

  -- `EphemeralMapCore.Evict`.
  unfoldable pub map_evict : EphemeralMapCore K V → K → EphemeralMapCore K V
  map_evict m key = record m { entries = Assoc.delete key m.entries }

  -- `EphemeralMapCore.Get`.
  unfoldable pub map_get : EphemeralMapCore K V → K → ℕ → Option V
  map_get m key now = live now (Assoc.get key m.entries)
