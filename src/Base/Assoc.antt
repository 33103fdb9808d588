-- ===== src/Base/Assoc.antt =====
-- A Go map as an association list with at most one entry for a key.
use mathlib.Core.Path.{◌≡◌, refl, sym, ◌∙◌}
use mathlib.Core.Option.{Option, none, some}
use lazily_go.Base.Lists.{In}
use mathlib.Core.List.{map, List, [], ◌∷◌}
use native.Mathlib.Omega.{arith}
use mathlib.Core.Logic.{◌⊎◌, ◌↔◌, ◌≢◌, inl, inr}
use lazily_go.Base.Tests.{if◌then◌else◌, if_elim, Bool-cases}
use lazily_go.Base.Equality.{Comparable, equal}

module _ {ℓ κ} {K : Type ℓ} {V : Type κ} ⦃c : Comparable K⦄ where
  -- `v, ok := m[k]`.
  unfoldable pub get : K → List (K × V) → Option V
  get k [] = none
  get k ((j, v) ∷ m) = if equal j k then some v else get k m

  -- `m[k] = v`.
  unfoldable pub put : K → V → List (K × V) → List (K × V)
  put k v [] = (k, v) ∷ []
  put k v ((j, w) ∷ m) = if equal j k then (k, v) ∷ m else (j, w) ∷ put k v m

  -- `delete(m, k)`.
  unfoldable pub delete : K → List (K × V) → List (K × V)
  delete k [] = []
  delete k ((j, w) ∷ m) = if equal j k then delete k m else (j, w) ∷ delete k m

  pub get-put :
      (k j : K) (v : V) (m : List (K × V))
      → get j (put k v m) ≡ (if equal k j then some v else get j m)
  unfolding get put
  get-put k j v [] = refl
  get-put k j v ((i, w) ∷ m) =
      ground (arith, c.eq_iff k j, c.eq_iff i k, c.eq_iff i j, get-put k j v m)

  pub get-delete :
      (k j : K) (m : List (K × V)) → get j (delete k m) ≡ (if equal k j then none else get j m)
  unfolding get delete
  get-delete k j [] = ground arith
  get-delete k j ((i, w) ∷ m) =
      ground (arith, c.eq_iff k j, c.eq_iff i k, c.eq_iff i j, get-delete k j m)

  -- A Go map has one entry for a key.
  abbrev pub Distinct : List (K × V) → Type κ
  Distinct [] = Unit
  Distinct ((k, v) ∷ m) = (get k m ≡ none) × Distinct m

  pub put-Distinct : (k : K) (v : V) (m : List (K × V)) → Distinct m → Distinct (put k v m)
  unfolding get put
  put-Distinct k v [] d = (refl, tt)
  put-Distinct k v ((j, w) ∷ m) d = elim (Bool-cases (equal j k)) [
    | inl same ↦ rw (same, put) (rw (← (c.eq_iff j k).0 same) d.0, d.1)
    | inr other ↦
        rw (other, put)
          (
            rw (get-put k j v m) (ground (arith, c.eq_iff j k, c.eq_iff k j)),
            put-Distinct k v m d.1,
          )
  ]

  pub delete-Distinct : (k : K) (m : List (K × V)) → Distinct m → Distinct (delete k m)
  unfolding get delete
  delete-Distinct k [] d = d
  delete-Distinct k ((j, w) ∷ m) d =
      if_elim Distinct (equal j k) (λ _. delete-Distinct k m d.1)
        (λ other. (rw (get-delete k j m) (ground (arith, d.0)), delete-Distinct k m d.1))

  abbrev pub keys : List (K × V) → List K
  keys = map (λ e. e.0)

  pub keys-put :
      (k j : K) (v : V) (m : List (K × V)) → In j (keys (put k v m)) → (k ≡ j) ⊎ In j (keys m)
  unfolding put
  keys-put k j v [] (inl e) = inl e
  keys-put k j v [] (inr none_left) = elim none_left [ ]
  keys-put k j v ((i, w) ∷ m) h = elim (Bool-cases (equal i k)) [
    | inl same ↦ elim (rw (same, put) at h) [ inl e ↦ inl e | inr r ↦ inr (inr r) ]
    | inr other ↦ elim (rw (other, put) at h) [
      | inl e ↦ inr (inl e)
      | inr r ↦ elim (keys-put k j v m r) [ inl e ↦ inl e | inr x ↦ inr (inr x) ]
    ]
  ]

  pub get_of_keys : (k : K) (m : List (K × V)) → In k (keys m) → (v : V) × (get k m ≡ some v)
  unfolding get
  get_of_keys k [] i = elim i [ ]
  get_of_keys k ((j, w) ∷ m) i = elim (Bool-cases (equal j k)) [
    | inl same ↦ (w, rw (same, get))
    | inr other ↦ elim i [
      | inl e ↦ absurd (cc ((c.eq_iff j k).1 e))
      | inr later ↦ let (v, e) = get_of_keys k m later in (v, rw (other, get) e)
    ]
  ]

  pub keys_of_get : (k : K) (v : V) (m : List (K × V)) → get k m ≡ some v → In k (keys m)
  unfolding get
  keys_of_get k v [] e = cc
  keys_of_get k v ((j, w) ∷ m) e = elim (Bool-cases (equal j k)) [
    | inl same ↦ inl ((c.eq_iff j k).0 same)
    | inr other ↦ inr (keys_of_get k v m (rw (other, get) at e))
  ]

  pub keys-put_iff :
      (k j : K) (v : V) (m : List (K × V)) → In j (keys (put k v m)) ↔ ((k ≡ j) ⊎ In j (keys m))
  keys-put_iff k j v m = (
    keys-put k j v m,
    λ h. elim (Bool-cases (equal k j)) [
      | inl same ↦ keys_of_get j v (put k v m) (get-put k j v m ∙ rw same refl)
      | inr other ↦ elim h [
        | inl e ↦ absurd (cc (other, (c.eq_iff k j).1 e))
        | inr i ↦
            let (w, found) = get_of_keys j m i in
            keys_of_get j w (put k v m) (get-put k j v m ∙ rw other found)
      ]
    ],
  )

  pub keys-delete_iff :
      (k j : K) (m : List (K × V)) → In j (keys (delete k m)) ↔ ((k ≢ j) × In j (keys m))
  keys-delete_iff k j m = elim (Bool-cases (equal k j)) [
    | inl same ↦ (
      λ i.
          let (w, found) = get_of_keys j (delete k m) i in
          absurd (cc (rw same at (sym (get-delete k j m) ∙ found))),
      λ (other, i). absurd (other ((c.eq_iff k j).0 same)),
    )
    | inr other ↦ (
      λ i.
          let (w, found) = get_of_keys j (delete k m) i in
          (
            λ e. absurd (cc (other, (c.eq_iff k j).1 e)),
            keys_of_get j w m (rw other at (sym (get-delete k j m) ∙ found)),
          ),
      λ (apart, i).
          let (w, found) = get_of_keys j m i in
          keys_of_get j w (delete k m) (get-delete k j m ∙ rw other found),
    )
  ]
