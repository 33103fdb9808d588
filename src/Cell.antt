-- ===== src/Cell.antt =====
-- core.go, `Source.Set`, as the wrapper cells use it: a value with the `==` guard. `cascades` counts the
-- calls of `cellChanged`, each of which invalidates the readers of the cell (see Kernel).
use lazily_go.Base.{
  ◌+◌, if◌then◌else◌, ◌≡◌, Comparable, arith, equal, not, ℕ, ℕ_comparable, bool_comparable,
  option_comparable,
}

pub record SourceCell {ℓ} (A : Type ℓ) : Type ℓ where
  pub value : A
  pub cascades : ℕ

module _ {ℓ} {A : Type ℓ} where
  unfoldable pub new_source : A → SourceCell A
  new_source initial = record { value = initial; cascades = 0 }

  unfoldable pub set_value : ⦃c : Comparable A⦄ → SourceCell A → A → SourceCell A
  set_value s new_value =
      if not (equal new_value s.value)
      then record { value = new_value; cascades = s.cascades + 1 }
      else s

  -- After a write the cell holds the new value, and its readers were told exactly if it changed.
  pub value-set_value : ⦃c : Comparable A⦄ (s : SourceCell A) (a : A) → (set_value s a).value ≡ a
  unfolding set_value
  value-set_value ⦃c⦄ s a = ground (arith, c.eq_iff a s.value)
