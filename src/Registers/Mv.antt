-- ===== src/Registers/Mv.antt =====
-- registers.go, `MvRegister`: what a merge knows, and when a write collapses.
use lazily_go.Base.{
  if◌then◌else◌, ◌∷◌, ◌≡◌, Comparable, List, Option, [], arith, equal, equal_refl, none, refl, some,
  true, ℕ_comparable, bool_comparable, option_comparable,
}
use lazily_go.Registers.{
  MvRegister, contains_all_stamps, contains_stamp, covers, new_mv_register, write,
}

module _ {ℓ} {S : Type ℓ} ⦃c : Comparable S⦄ where
  contains_all_mono :
      (x : S) (observed want : List S)
      → contains_all_stamps observed want ≡ true
      → contains_all_stamps (x ∷ observed) want ≡ true
  unfolding contains_all_stamps contains_stamp
  contains_all_mono x observed [] h = refl
  contains_all_mono x observed (s ∷ want) h = ground (arith, contains_all_mono x observed want)

  contains_all_refl : (stamps : List S) → contains_all_stamps stamps stamps ≡ true
  unfolding contains_all_stamps contains_stamp
  contains_all_refl [] = refl
  contains_all_refl (s ∷ stamps) =
      ground (arith, equal_refl s, contains_all_mono s stamps stamps (contains_all_refl stamps))

abbrev pub or_first {ℓ} : {A : Type ℓ} → Option A → Option A → Option A
or_first none later = later
or_first (some a) later = some a

module _ {ℓ} {S V : Type ℓ} ⦃c : Comparable S⦄ where
  -- The value that is paired with a stamp first.
  unfoldable pub value_at : S → List S → List V → Option V
  value_at s [] values = none
  value_at s (t ∷ stamps) [] = none
  value_at s (t ∷ stamps) (v ∷ values) =
      let later = value_at s stamps values in if equal t s then some v else later

  abbrev pub value_of : MvRegister S V → S → Option V
  value_of r s = value_at s r.stamps r.values

  -- A write that has observed every stamp of the register leaves its own value only.
  write_collapses :
      (r : MvRegister S V) (value : V) (stamp : S)
      → write r value stamp (some r.stamps) ≡ record { stamps = stamp ∷ []; values = value ∷ [] }
  unfolding write covers new_mv_register
  write_collapses r value stamp = ground (arith, contains_all_refl r.stamps)
