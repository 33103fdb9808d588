-- ===== src/KeyedOrder.antt =====
-- keyed_order.go: the present set of a reactive map with the order of its keys. An index is an `int`,
-- written as in Base/Word. `none` is the panic of a slice that is read out of range.
pub mod Rotate
pub mod Moves
pub mod Lockstep
pub mod Runs
mod Tests
use lazily_go.Base.{
  ◌+◌, ◌++◌, ◌-◌, ◌==◌, if◌then◌else◌, ◌∷◌, Bool, Comparable, List, Option, [], drop, equal, false,
  get_elem?, leb, length, ltb, none, set, some, suc, take, true, ℕ, ℕ_comparable, bool_comparable,
  option_comparable,
}
use lazily_go.Base.Word.{zero_i64}
use lazily_go.Base.Assoc

-- `keyedOrder`.
pub record KeyedOrder {ℓ κ} (K : Type ℓ) (H : Type κ) : Type (ℓ ⊔ κ) where
  pub entries : List (K × H)
  pub order : List K

-- `mapMutation`; `changed` tells the first from the others.
pub data MapMutation : Type 0 where
  unmutated inserted removed : MapMutation

-- `mapMove`.
pub data MapMove : Type 0 where
  missing unchanged reordered : MapMove

abbrev pub mutated : MapMutation → Bool
mutated unmutated = false
mutated _ = true

-- `applied` and `changed`.
abbrev pub applied : MapMove → Bool
applied missing = false
applied _ = true

abbrev pub changed : MapMove → Bool
changed reordered = true
changed _ = false

module _ {ℓ} {K : Type ℓ} ⦃c : Comparable K⦄ where
  -- The loop of `position`, and of the search in `remove`.
  unfoldable pub position_from : ℕ → K → List K → Option ℕ
  position_from i key [] = none
  position_from i key (existing ∷ rest) =
      let later = position_from (i + 1) key rest in if equal existing key then some i else later

  -- `append(order[:i], order[i+1:]...)` at the first key that is equal.
  pub without_key : K → List K → List K
  without_key key [] = []
  without_key key (existing ∷ rest) =
      let later = without_key key rest in if equal existing key then rest else existing ∷ later

-- `rotate`, on the slice.
unfoldable pub rotate {ℓ} : {K : Type ℓ} → List K → ℕ → ℕ → Option (List K)
rotate order from to = elim (get_elem? order from) [
  | none ↦ none
  | some moved ↦
      if ltb to (length order)
      then some (
          set
            (if ltb from to
              then take from order ++ take (to - from) (drop (suc from) order) ++ drop to order
              else take (suc to) order ++ take (from - to) (drop to order) ++ drop (suc from) order)
            to moved)
      else none
]

-- The index that `moveTo` is left with: at least 0, at most the last place.
abbrev pub clamped : ℕ → ℕ → ℕ
clamped index len =
    let to = if ltb index zero_i64 then 0 else index - zero_i64 in
    if ltb (len - 1) to then len - 1 else to

-- An index that is no `int` below 0.
abbrev pub int_of : ℕ → ℕ
int_of n = n + zero_i64

module _ {ℓ κ} {K : Type ℓ} {H : Type κ} ⦃c : Comparable K⦄ where
  -- `newKeyedOrder`.
  abbrev pub new_keyed_order : KeyedOrder K H
  new_keyed_order = record { entries = []; order = [] }

  -- `contains`.
  unfoldable pub contains : KeyedOrder K H → K → Bool
  contains k key = elim (Assoc.get key k.entries) [ none ↦ false | some h ↦ true ]

  -- `position`.
  unfoldable pub position : KeyedOrder K H → K → Option ℕ
  position k key = position_from 0 key k.order

  -- `insert`.
  unfoldable pub insert_key : KeyedOrder K H → K → H → KeyedOrder K H × H × MapMutation
  insert_key k key handle = elim (Assoc.get key k.entries) [
    | some existing ↦ (k, existing, unmutated)
    | none ↦ (
      record { entries = Assoc.put key handle k.entries; order = k.order ++ key ∷ [] },
      handle,
      inserted,
    )
  ]

  -- `remove`; the handle of a missing key is the zero value.
  unfoldable pub remove : KeyedOrder K H → K → KeyedOrder K H × Option H × MapMutation
  unfolding without_key
  remove k key = elim (Assoc.get key k.entries) [
    | none ↦ (k, none, unmutated)
    | some handle ↦ (
      record { entries = Assoc.delete key k.entries; order = without_key key k.order },
      some handle,
      removed,
    )
  ]

  -- `moveTo`, from the place of the key; an `int` index is clamped first.
  unfoldable pub move_from : KeyedOrder K H → ℕ → ℕ → Option (KeyedOrder K H × MapMove)
  unfolding rotate
  move_from k from to = if from == to then some (k, unchanged) else elim (rotate k.order from to) [
    | none ↦ none
    | some order ↦ some (record k { order = order }, reordered)
  ]

  unfoldable pub move_to : KeyedOrder K H → K → ℕ → Option (KeyedOrder K H × MapMove)
  unfolding position move_from
  move_to k key index = elim (position k key) [
    | none ↦ some (k, missing)
    | some from ↦ move_from k from (clamped index (length k.order))
  ]

  -- `moveBefore`.
  unfoldable pub move_before : KeyedOrder K H → K → K → Option (KeyedOrder K H × MapMove)
  unfolding position move_to
  move_before k key anchor = elim (position k anchor) [
    | none ↦ some (k, missing)
    | some anchor_idx ↦ elim (position k key) [
      | none ↦ some (k, missing)
      | some from ↦
          move_to k key (int_of (if ltb from anchor_idx then anchor_idx - 1 else anchor_idx))
    ]
  ]

  -- `moveAfter`.
  unfoldable pub move_after : KeyedOrder K H → K → K → Option (KeyedOrder K H × MapMove)
  unfolding position move_to
  move_after k key anchor = elim (position k anchor) [
    | none ↦ some (k, missing)
    | some anchor_idx ↦ elim (position k key) [
      | none ↦ some (k, missing)
      | some from ↦
          move_to k key (int_of (if leb from anchor_idx then anchor_idx else anchor_idx + 1))
    ]
  ]
