-- ===== src/Kernel/Mark.antt =====
-- core.go, `markCone`: the walk, its fuel, and the parts of a node that it leaves.
use lazily_go.Base.{
  ◌++◌, ◌∙◌, ◌∷◌, ◌≡◌, ◌≤◌, All, Bool, List, [], ap, arith, get_elem?-map_same, inl, inr,
  length-append, refl, some, subst, suc, sym, zero, ℕ,
}
use lazily_go.Kernel.{Context, Node, lazily_marked, mark_cone, mark_entry}
use lazily_go.Kernel.Round.{
  NoSource, Pushes, SameShape, SourcesReadNothing, mark_bound, mark_entry-Round, mark_entry-Pushes,
  shape,
}

module _ {ℓ} {V : Type ℓ} where
  pub NoSource-same : (c' c : Context V) (n : ℕ) → SameShape c' c → NoSource c n → NoSource c' n
  NoSource-same c' c n same none_there nb e k =
      let (old, at, alike) = get_elem?-map_same shape c'.nodes c.nodes n nb same e in
      none_there old at (ap (λ (x : Node V). x.kind) (sym alike) ∙ k)

  pub All-NoSource_same :
      (c' c : Context V) (ns : List ℕ) → SameShape c' c → All (NoSource c) ns → All (NoSource c') ns
  All-NoSource_same c' c [] same all = tt
  All-NoSource_same c' c (n ∷ ns) same all =
      (NoSource-same c' c n same all.0, All-NoSource_same c' c ns same all.1)

  pub SourcesReadNothing-same :
      (c' c : Context V) → SameShape c' c → SourcesReadNothing c → SourcesReadNothing c'
  SourcesReadNothing-same c' c same w n nb e =
      let (old, at, alike) = get_elem?-map_same shape c'.nodes c.nodes n nb same e in
      All-NoSource_same c' c nb.dependents same
        (subst (All (NoSource c)) (ap (λ (x : Node V). x.dependents) (sym alike)) (w n old at))

  -- Every entry of the stack is no `Source`.
  abbrev pub StackOf : Context V → List (ℕ × Bool) → Type ℓ
  StackOf c stack = All (λ (e : ℕ × Bool). NoSource c e.0) stack

  StackOf-lazily_marked :
      (c : Context V) (ds : List ℕ) → All (NoSource c) ds → StackOf c (lazily_marked ds)
  StackOf-lazily_marked c [] all = tt
  StackOf-lazily_marked c (d ∷ ds) all = (all.0, StackOf-lazily_marked c ds all.1)

  pub StackOf-append :
      (c : Context V) (xs ys : List (ℕ × Bool)) → StackOf c xs → StackOf c ys → StackOf c (xs ++ ys)
  StackOf-append c [] ys hx hy = hy
  StackOf-append c (x ∷ xs) ys hx hy = (hx.0, StackOf-append c xs ys hx.1 hy)

  pub StackOf-same :
      (c' c : Context V) (xs : List (ℕ × Bool)) → SameShape c' c → StackOf c xs → StackOf c' xs
  StackOf-same c' c [] same all = tt
  StackOf-same c' c (x ∷ xs) same all =
      (NoSource-same c' c x.0 same all.0, StackOf-same c' c xs same all.1)

  pub StackOf-pushed :
      (c : Context V) (n : ℕ) (pushed : List (ℕ × Bool))
      → SourcesReadNothing c
      → Pushes c n pushed
      → StackOf c pushed
  StackOf-pushed c n pushed w (inl e) = rw e tt
  StackOf-pushed c n pushed w (inr (nb, at, e)) =
      rw e (StackOf-lazily_marked c nb.dependents (w n nb at))

  -- The walk ends: with fuel for the entries on the stack and for what every node can still push, it
  -- returns a context, and that context has the nodes of the old one up to their marks: the same
  -- edges, values and closures.
  pub mark_cone_total :
      (fuel : ℕ) (c : Context V) (stack : List (ℕ × Bool)) (schedule : Bool)
      → SourcesReadNothing c
      → StackOf c stack
      → mark_bound c stack ≤ fuel
      → (c' : Context V) × (mark_cone fuel c stack schedule ≡ some c') × SameShape c' c
  unfolding mark_cone
  mark_cone_total fuel c [] schedule w s b = (c, refl, refl)
  mark_cone_total zero c (entry ∷ stack) schedule w s b = absurd (omega arith)
  mark_cone_total (suc fuel) c (entry ∷ stack) schedule w s b =
      let r = mark_entry c entry schedule in
      let (fewer, same) = mark_entry-Round c entry schedule s.0 in
      let (c', found, same') =
        mark_cone_total fuel r.0 (r.1 ++ stack) schedule (SourcesReadNothing-same r.0 c same w)
          (StackOf-append r.0 r.1 stack
            (StackOf-same r.0 c r.1 same
              (StackOf-pushed c entry.0 r.1 w (mark_entry-Pushes c entry schedule)))
            (StackOf-same r.0 c stack same s.1))
          (omega (arith, length-append r.1 stack)) in
      (c', found, same' ∙ same)
