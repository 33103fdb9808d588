-- ===== src/Sync/Liveness.antt =====
-- reliable_sync.go, the liveness cells: `OrSet` and `WireLwwRegister`. A set of tags is a list without
-- repeats; a tag is a number.
use lazily_go.Base.{
  ◌==◌, if◌then◌else◌, ◌||◌, ◌↔◌, ◌∙◌, ◌∷◌, ◌≡◌, ==-self, ==_iff, Bool, Bool-cases, List, [], ap,
  arith, false, inl, inr, not, refl, sym, true, ℕ,
}
use lazily_go.Hlc.{greater}
use lazily_go.Crdt.{WireStamp, from_wire}

-- `OrSet`.
pub record OrSet : Type 0 where
  pub adds : List ℕ
  pub removes : List ℕ

-- `_, ok := set[tag]`.
abbrev pub has_tag : ℕ → List ℕ → Bool
has_tag tag [] = false
has_tag tag (t ∷ ts) = (t == tag) || has_tag tag ts

-- `set[tag] = struct{}{}`.
abbrev pub put_tag : ℕ → List ℕ → List ℕ
put_tag tag ts = if has_tag tag ts then ts else tag ∷ ts

-- The loops that put every tag of one set into another.
abbrev pub put_tags : List ℕ → List ℕ → List ℕ
put_tags [] ts = ts
put_tags (tag ∷ more) ts = put_tags more (put_tag tag ts)

-- `NewOrSet`.
abbrev pub new_or_set : OrSet
new_or_set = record { adds = []; removes = [] }

-- `Add`.
unfoldable pub add_tag : OrSet → ℕ → OrSet
add_tag s tag = record s { adds = put_tag tag s.adds }

-- `RemoveObserved`.
unfoldable pub remove_observed : OrSet → List ℕ → OrSet
remove_observed s tags = record s { removes = put_tags tags s.removes }

-- The loop of `Present`.
abbrev pub some_unshadowed : List ℕ → List ℕ → Bool
some_unshadowed [] removes = false
some_unshadowed (t ∷ ts) removes =
    if not (has_tag t removes) then true else some_unshadowed ts removes

-- `Present`.
unfoldable pub is_present : OrSet → Bool
is_present s = some_unshadowed s.adds s.removes

-- `Join`.
unfoldable pub or_join : OrSet → OrSet → OrSet
or_join s other = record {
  adds = put_tags other.adds s.adds;
  removes = put_tags other.removes s.removes;
}

-- `WireLwwRegister`.
pub record WireLwwRegister {ℓ} (V : Type ℓ) : Type ℓ where
  pub stamp : WireStamp
  pub value : V

-- `WireStamp.Greater`.
unfoldable pub wire_greater : WireStamp → WireStamp → Bool
unfolding greater from_wire
wire_greater s other = greater (from_wire s) (from_wire other)

module _ {ℓ} {V : Type ℓ} where
  -- `WireLwwRegister.Set`.
  unfoldable pub lww_set : WireLwwRegister V → WireStamp → V → WireLwwRegister V
  unfolding wire_greater
  lww_set r stamp value =
      if wire_greater stamp r.stamp then record { stamp = stamp; value = value } else r

  -- `WireLwwRegister.Join`.
  unfoldable pub lww_join : WireLwwRegister V → WireLwwRegister V → WireLwwRegister V
  unfolding wire_greater
  lww_join r other = if wire_greater other.stamp r.stamp then other else r

has-put_tag :
    (tag t : ℕ) (ts : List ℕ) → has_tag tag (put_tag t ts) ≡ ((t == tag) || has_tag tag ts)
has-put_tag tag t ts = elim (Bool-cases (has_tag t ts)) [
  | inl there ↦ rw there (elim (Bool-cases (t == tag)) [
    | inl same ↦ rw (same, ← (==_iff t tag).0 same) there
    | inr other ↦ rw other refl
  ])
  | inr new ↦ rw new refl
]

or_swap : (a b c : Bool) → (b || (a || c)) ≡ ((a || b) || c)
or_swap a b c = ground arith

has-put_tags :
    (tag : ℕ) (more ts : List ℕ)
    → has_tag tag (put_tags more ts) ≡ (has_tag tag more || has_tag tag ts)
has-put_tags tag [] ts = refl
has-put_tags tag (t ∷ more) ts =
    has-put_tags tag more (put_tag t ts)
    ∙ ap (λ x. has_tag tag more || x) (has-put_tag tag t ts)
    ∙ or_swap (t == tag) (has_tag tag more) (has_tag tag ts)

-- Present is a tag that was added and that no remove has observed.
is_present_iff :
    (s : OrSet)
    → (is_present s ≡ true)
      ↔ ((tag : ℕ) × (has_tag tag s.adds ≡ true) × (has_tag tag s.removes ≡ false))
unfolding is_present
is_present_iff s = some_unshadowed_iff s.adds s.removes
  where
    some_unshadowed_iff :
        (adds removes : List ℕ)
        → (some_unshadowed adds removes ≡ true)
          ↔ ((tag : ℕ) × (has_tag tag adds ≡ true) × (has_tag tag removes ≡ false))
    some_unshadowed_iff [] removes = (λ h. cc, λ (tag, h, _). cc)
    some_unshadowed_iff (t ∷ ts) removes = elim (Bool-cases (has_tag t removes)) [
      | inl shadowed ↦ rw shadowed (
        λ h.
            let (tag, added, kept) = (some_unshadowed_iff ts removes).0 h in
            (tag, ground (arith, added), kept),
        λ (tag, added, kept). elim (Bool-cases (t == tag)) [
          | inl same ↦ absurd (cc (shadowed, kept, (==_iff t tag).0 same))
          | inr other ↦ (some_unshadowed_iff ts removes).1 (tag, rw other at added, kept)
        ],
      )
      | inr free ↦ rw free (λ h. (t, rw (==-self t) refl, free), λ h. refl)
    ]

same_presence :
    (r s : OrSet)
    → ((tag : ℕ) → has_tag tag r.adds ≡ has_tag tag s.adds)
    → ((tag : ℕ) → has_tag tag r.removes ≡ has_tag tag s.removes)
    → is_present r ≡ is_present s
same_presence r s adds removes = elim (Bool-cases (is_present r)) [
  | inl here ↦
      let (tag, added, kept) = (is_present_iff r).0 here in
      here ∙ sym ((is_present_iff s).1 (tag, sym (adds tag) ∙ added, sym (removes tag) ∙ kept))
  | inr gone ↦ elim (Bool-cases (is_present s)) [
    | inl here ↦
        let (tag, added, kept) = (is_present_iff s).0 here in
        absurd (cc (gone, (is_present_iff r).1 (tag, adds tag ∙ added, removes tag ∙ kept)))
    | inr gone' ↦ gone ∙ sym gone'
  ]
]

-- A membership fact about joined tag sets, from the Boolean law of it.
joins_swap :
    (tag : ℕ) (xs ys : List ℕ) → has_tag tag (put_tags ys xs) ≡ has_tag tag (put_tags xs ys)
joins_swap tag xs ys = rw (has-put_tags tag ys xs, has-put_tags tag xs ys) ground arith

joins_group :
    (tag : ℕ) (xs ys zs : List ℕ)
    → has_tag tag (put_tags zs (put_tags ys xs)) ≡ has_tag tag (put_tags (put_tags zs ys) xs)
joins_group tag xs ys zs =
    rw
      (
        has-put_tags tag zs (put_tags ys xs),
        has-put_tags tag ys xs,
        has-put_tags tag (put_tags zs ys) xs,
        has-put_tags tag zs ys,
      )
      ground arith

joins_repeat :
    (tag : ℕ) (xs ys : List ℕ)
    → has_tag tag (put_tags ys (put_tags ys xs)) ≡ has_tag tag (put_tags ys xs)
joins_repeat tag xs ys =
    rw (has-put_tags tag ys (put_tags ys xs), has-put_tags tag ys xs) ground arith

-- Replicas that have joined the same sets agree on presence: the order of the joins, their grouping
-- and their repetition do not matter. An added tag that neither replica has removed makes the joined
-- set present, whatever else was removed.
pub or_join-converges :
    (a b c : OrSet)
    → (is_present (or_join a b) ≡ is_present (or_join b a))
      × (is_present (or_join (or_join a b) c) ≡ is_present (or_join a (or_join b c)))
      × (is_present (or_join (or_join a b) b) ≡ is_present (or_join a b))
      × ((tag : ℕ)
          → has_tag tag a.removes ≡ false
          → has_tag tag b.removes ≡ false
          → is_present (or_join (add_tag a tag) b) ≡ true)
unfolding or_join add_tag
or_join-converges a b c = (
  same_presence (or_join a b) (or_join b a) (λ tag. joins_swap tag a.adds b.adds)
      (λ tag. joins_swap tag a.removes b.removes),
  same_presence (or_join (or_join a b) c) (or_join a (or_join b c))
      (λ tag. joins_group tag a.adds b.adds c.adds)
      (λ tag. joins_group tag a.removes b.removes c.removes),
  same_presence (or_join (or_join a b) b) (or_join a b) (λ tag. joins_repeat tag a.adds b.adds)
      (λ tag. joins_repeat tag a.removes b.removes),
  λ tag ra rb. (is_present_iff (or_join (add_tag a tag) b)).1 (
    tag,
    rw (has-put_tags tag b.adds (put_tag tag a.adds), has-put_tag tag tag a.adds, ==-self tag)
        ground arith,
    rw (has-put_tags tag b.removes a.removes, ra, rb) refl,
  ),
)
