-- ===== src/KeyedOrder/Runs.antt =====
-- keyed_order.go: any calls on a new keyed order.
use lazily_go.Base.{
  ◌∷◌, ◌≡◌, Comparable, List, Option, [], ap, none, refl, some, ℕ, ℕ_comparable, bool_comparable,
  option_comparable,
}
use lazily_go.KeyedOrder.{
  KeyedOrder, MapMove, insert_key, move_after, move_before, move_to, new_keyed_order, remove,
}
use lazily_go.KeyedOrder.Lockstep.{
  Lockstep, insert_key-Lockstep, move_after-Lockstep, move_before-Lockstep, move_to-Lockstep,
  remove-Lockstep,
}

-- The calls that change a keyed order.
pub data OrderOp {ℓ κ} (K : Type ℓ) (H : Type κ) : Type (ℓ ⊔ κ) where
  inserts : K → H → OrderOp K H
  removes : K → OrderOp K H
  moves_to : K → ℕ → OrderOp K H
  moves_before moves_after : K → K → OrderOp K H

module _ {ℓ κ} {K : Type ℓ} {H : Type κ} ⦃c : Comparable K⦄ where
  abbrev moved : Option (KeyedOrder K H × MapMove) → Option (KeyedOrder K H)
  moved none = none
  moved (some (k, m)) = some k

  -- One call; `none` is a panic.
  abbrev pub order_step : KeyedOrder K H → OrderOp K H → Option (KeyedOrder K H)
  order_step k (inserts key handle) = some ((insert_key k key handle).0)
  order_step k (removes key) = some ((remove k key).0)
  order_step k (moves_to key index) = moved (move_to k key index)
  order_step k (moves_before key anchor) = moved (move_before k key anchor)
  order_step k (moves_after key anchor) = moved (move_after k key anchor)

  pub order_run : KeyedOrder K H → List (OrderOp K H) → Option (KeyedOrder K H)
  order_run k [] = some k
  order_run k (op ∷ ops) = elim (order_step k op) [ none ↦ none | some k' ↦ order_run k' ops ]

  abbrev Steps : Option (KeyedOrder K H) → Type (ℓ ⊔ κ)
  Steps o = (k : KeyedOrder K H) × (o ≡ some k) × Lockstep k

  moved-Steps :
      (o : Option (KeyedOrder K H × MapMove))
      → (k : KeyedOrder K H) × (m : MapMove) × (o ≡ some (k, m)) × Lockstep k
      → Steps (moved o)
  moved-Steps o (k, m, e, h) = (k, ap moved e, h)

  order_step-Steps : (k : KeyedOrder K H) (op : OrderOp K H) → Lockstep k → Steps (order_step k op)
  order_step-Steps k (inserts key handle) h =
      ((insert_key k key handle).0, refl, insert_key-Lockstep k key handle h)
  order_step-Steps k (removes key) h = ((remove k key).0, refl, remove-Lockstep k key h)
  order_step-Steps k (moves_to key index) h =
      moved-Steps (move_to k key index) (move_to-Lockstep k key index h)
  order_step-Steps k (moves_before key anchor) h =
      moved-Steps (move_before k key anchor) (move_before-Lockstep k key anchor h)
  order_step-Steps k (moves_after key anchor) h =
      moved-Steps (move_after k key anchor) (move_after-Lockstep k key anchor h)

  order_run-Steps :
      (k : KeyedOrder K H) (ops : List (OrderOp K H)) → Lockstep k → Steps (order_run k ops)
  unfolding order_run
  order_run-Steps k [] h = (k, refl, h)
  order_run-Steps k (op ∷ ops) h =
      let (k', e, h') = order_step-Steps k op h in rw (order_run, e) (order_run-Steps k' ops h')

  -- No call on a keyed order panics, whatever the index of a move is, and after any calls on a new one
  -- every key of the entries stands exactly once in the order, and no other key does.
  pub order_run-Lockstep :
      (ops : List (OrderOp K H))
      → (k : KeyedOrder K H) × (order_run new_keyed_order ops ≡ some k) × Lockstep k
  order_run-Lockstep ops =
      order_run-Steps new_keyed_order ops (record { once = tt; same = λ key. ((λ i. i), λ i. i) })
