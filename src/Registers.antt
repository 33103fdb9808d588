-- ===== src/Registers.antt =====
-- registers.go, `MvRegister`: a multi-value register. Stamps are any type with `==`; a set of observed
-- stamps is a list, and a nil one is `none`. The two slices of a register have the same length.
pub mod Mv
mod Tests
use lazily_go.Base.{
  ◌&&◌, ◌++◌, ◌==◌, if◌then◌else◌, ◌∷◌, Bool, Comparable, List, Option, [], equal, false, length,
  ltb, none, not, some, suc, true, ℕ, ℕ_comparable, bool_comparable, option_comparable,
}

pub record MvRegister {ℓ} (S V : Type ℓ) : Type ℓ where
  pub stamps : List S
  pub values : List V

module _ {ℓ} {S V : Type ℓ} where
  unfoldable pub new_mv_register : MvRegister S V
  new_mv_register = record { stamps = []; values = [] }

module _ {ℓ} {S : Type ℓ} ⦃c : Comparable S⦄ where
  -- `containsStamp`, and the lookup in a set of stamps.
  pub contains_stamp : S → List S → Bool
  contains_stamp stamp [] = false
  contains_stamp stamp (s ∷ stamps) = if equal s stamp then true else contains_stamp stamp stamps

  pub contains_all_stamps : List S → List S → Bool
  unfolding contains_stamp
  contains_all_stamps observed [] = true
  contains_all_stamps observed (s ∷ want) =
      if not (contains_stamp s observed) then false else contains_all_stamps observed want

  -- The loop of `Write` that counts the stamps that the write did not observe.
  pub count_concurrent : Option (List S) → List S → ℕ
  unfolding contains_stamp
  count_concurrent observed [] = 0
  count_concurrent none (s ∷ stamps) = suc (count_concurrent none stamps)
  count_concurrent (some observed) (s ∷ stamps) =
      let more = count_concurrent (some observed) stamps in
      if not (contains_stamp s observed) then suc more else more

  pub covers : Option (List S) → List S → Bool
  unfolding contains_all_stamps
  covers none stamps = false
  covers (some observed) stamps = contains_all_stamps observed stamps

module _ {ℓ} {S V : Type ℓ} ⦃c : Comparable S⦄ where
  -- The register before the write is appended.
  abbrev pub cleared : MvRegister S V → Option (List S) → MvRegister S V
  cleared r observed =
      if covers observed r.stamps
      then new_mv_register
      else if ltb 0 (length r.stamps) && count_concurrent observed r.stamps == 0
      then new_mv_register
      else r

  unfoldable pub write : MvRegister S V → V → S → Option (List S) → MvRegister S V
  unfolding covers count_concurrent new_mv_register
  write r value stamp observed =
      let r' = cleared r observed in
      record { stamps = r'.stamps ++ stamp ∷ []; values = r'.values ++ value ∷ [] }

  -- The loop of `Merge` over the entries of the other register.
  pub merge_entries : MvRegister S V → List S → List V → MvRegister S V
  unfolding contains_stamp
  merge_entries r [] values = r
  merge_entries r (s ∷ stamps) [] = r
  merge_entries r (s ∷ stamps) (v ∷ values) =
      merge_entries
        (if not (contains_stamp s r.stamps)
          then record { stamps = r.stamps ++ s ∷ []; values = r.values ++ v ∷ [] }
          else r)
        stamps values

  -- `MvRegister.Merge`.
  unfoldable pub mv_merge : MvRegister S V → MvRegister S V → MvRegister S V
  unfolding merge_entries
  mv_merge r other = merge_entries r other.stamps other.values
