-- ===== src/Kernel/Invalidate.antt =====
-- core.go, `invalidate`: the cone below a written node.
use lazily_go.Base.{
  ◌++◌, if◌then◌else◌, ◌∙◌, ◌∷◌, ◌≡◌, ◌≢◌, ◌≤◌, ◌⊎◌, All, All-append_right, All-map, All_at, Bool,
  In, List, Option-cases, [], ap, false, get_elem?, get_elem?-map_same, if_elim, inl, inr, length,
  map, none, refl, some, some_inj, subst, suc, sym, true, zero, ℕ,
}
use lazily_go.Kernel.{
  Context, Node, NodeKind, computed, effect, lazily_marked, learns, mark_cone, mark_entry,
  mark_found, mark_node, node, source, invalidate, mark_dependents,
}
use lazily_go.Kernel.Round.{
  NoSource, SourcesReadNothing, mark_entry-Round, mark_entry_found, mark_entry_missing,
  mark_entry-Pushes, nodes-mark_stale, places, places-lazily_marked, SameShape, shape, mark_bound,
}
use lazily_go.Kernel.Mark.{
  SourcesReadNothing-same, StackOf, StackOf-append, StackOf-pushed, StackOf-same, mark_cone_total,
}
use lazily_go.Kernel.Cone.{
  Advances, Advances-force_run, Advances-same, Advances-stale, ClosedBut, Marked,
}

places_if :
    (b : Bool) (ds : List ℕ) → places (if b then lazily_marked ds else []) ≡ (if b then ds else [])
places_if true ds = places-lazily_marked ds
places_if false ds = refl

places-append : (xs ys : List (ℕ × Bool)) → places (xs ++ ys) ≡ places xs ++ places ys
places-append [] ys = refl
places-append (x ∷ xs) ys = ap (◌∷◌ x.0) (places-append xs ys)

abbrev pub forced_marked : List ℕ → List (ℕ × Bool)
forced_marked = map (λ d. (d, true))

places-forced_marked : (ds : List ℕ) → places (forced_marked ds) ≡ ds
places-forced_marked [] = refl
places-forced_marked (d ∷ ds) = ap (◌∷◌ d) (places-forced_marked ds)

length-forced_marked : (ds : List ℕ) → length (forced_marked ds) ≡ length ds
length-forced_marked [] = refl
length-forced_marked (d ∷ ds) = ap suc (length-forced_marked ds)

module _ {ℓ} {V : Type ℓ} where
  Marked-effect :
      (ns : List (Node V)) (n : ℕ) (nb : Node V)
      → get_elem? ns n ≡ some nb
      → nb.kind ≡ effect
      → Marked ns n
  Marked-effect ns n nb e k x at kx live =
      absurd (cc (k, ap (λ (y : Node V). y.kind) (some_inj (sym e ∙ at)), kx))

  Marked-disposed :
      (ns : List (Node V)) (n : ℕ) (nb : Node V)
      → get_elem? ns n ≡ some nb
      → nb.disposed ≡ true
      → Marked ns n
  Marked-disposed ns n nb e gone x at kx live =
      absurd (cc (gone, ap (λ (y : Node V). y.disposed) (some_inj (sym e ∙ at)), live))

  Marked-missing : (ns : List (Node V)) (n : ℕ) → get_elem? ns n ≡ none → Marked ns n
  Marked-missing ns n e x at kx live = absurd (cc (e, at))

  abbrev After : Context V → ℕ → Context V × List (ℕ × Bool) → Type ℓ
  After c n r = Advances c.nodes r.0.nodes n (places r.1)

  mark_node-Advances :
      (k : NodeKind) (c : Context V) (n : ℕ) (nb : Node V) (force schedule : Bool)
      → nb.kind ≡ k
      → k ≢ source
      → node c n ≡ some nb
      → After c n (mark_node k c n nb force schedule)
  unfolding mark_node
  mark_node-Advances source c n nb force schedule k s e = absurd (s refl)
  mark_node-Advances computed c n nb force schedule k s e =
      rw (places_if (learns nb force) nb.dependents) (Advances-stale c.nodes n nb force e)
  mark_node-Advances effect c n nb force false k s e =
      Advances-same c.nodes n (Marked-effect c.nodes n nb e k)
  mark_node-Advances effect c n nb force true k s e = elim (nodes-mark_stale c n nb force) [
    | inl same ↦ rw same (Advances-same c.nodes n (Marked-effect c.nodes n nb e k))
    | inr new ↦ rw new (Advances-force_run c.nodes n nb e k)
  ]

  mark_found-Advances :
      (c : Context V) (n : ℕ) (nb : Node V) (force schedule : Bool)
      → nb.kind ≢ source
      → node c n ≡ some nb
      → After c n (mark_found c n nb force schedule)
  unfolding mark_found
  mark_found-Advances c n nb force schedule s e =
      if_elim (After c n) nb.disposed
        (λ gone. Advances-same c.nodes n (Marked-disposed c.nodes n nb e gone))
        (λ _. mark_node-Advances nb.kind c n nb force schedule refl s e)

  mark_entry-Advances :
      (c : Context V) (entry : ℕ × Bool) (schedule : Bool)
      → NoSource c entry.0
      → After c entry.0 (mark_entry c entry schedule)
  mark_entry-Advances c (n, force) schedule s = elim (Option-cases (node c n)) [
    | inl e ↦
        rw (mark_entry_missing c n force schedule e)
          (Advances-same c.nodes n (Marked-missing c.nodes n e))
    | inr (nb, e) ↦
        rw (mark_entry_found c n nb force schedule e)
          (mark_found-Advances c n nb force schedule (s nb e) e)
  ]

  -- What the finished walk leaves.
  pub record Walked (c c' : Context V) (stack : List ℕ) : Type ℓ where
    pub closed : ClosedBut c'.nodes []
    pub roots : All (Marked c'.nodes) stack
    pub keeps : (d : ℕ) → Marked c.nodes d → Marked c'.nodes d

  mark_cone-Walked :
      (fuel : ℕ) (c c' : Context V) (stack : List (ℕ × Bool)) (schedule : Bool)
      → SourcesReadNothing c
      → StackOf c stack
      → ClosedBut c.nodes (places stack)
      → mark_cone fuel c stack schedule ≡ some c'
      → Walked c c' (places stack)
  unfolding mark_cone
  mark_cone-Walked fuel c c' [] schedule w s closed e =
      subst (λ x. Walked c x []) (some_inj e)
        (record { closed = closed; roots = tt; keeps = λ d m. m })
  mark_cone-Walked zero c c' (entry ∷ stack) schedule w s closed e = absurd (cc e)
  mark_cone-Walked (suc fuel) c c' (entry ∷ stack) schedule w s closed e =
      let r = mark_entry c entry schedule in
      let (_, same) = mark_entry-Round c entry schedule s.0 in
      let ahead = mark_entry-Advances c entry schedule s.0 in
      let rest =
        mark_cone-Walked fuel r.0 c' (r.1 ++ stack) schedule (SourcesReadNothing-same r.0 c same w)
          (StackOf-append r.0 r.1 stack
            (StackOf-same r.0 c r.1 same
              (StackOf-pushed c entry.0 r.1 w (mark_entry-Pushes c entry schedule)))
            (StackOf-same r.0 c stack same s.1))
          (rw (places-append r.1 stack) (ahead.closes (places stack) closed)) e in
      record {
        closed = rest.closed;
        roots = (
          rest.keeps entry.0 ahead.marks,
          All-append_right (Marked c'.nodes) (places r.1) (places stack)
              (rw (places-append r.1 stack) at rest.roots),
        );
        keeps = λ d m. rest.keeps d (ahead.keeps d m);
      }

  -- A place below `n`: a dependent of `n`, or of a live `Computed` below it.
  pub data Downstream (c : Context V) (n : ℕ) : ℕ → Type ℓ where
    direct : (nb : Node V) {d : ℕ} → node c n ≡ some nb → In d nb.dependents → Downstream c n d
    further :
        {m d : ℕ} (mb : Node V)
        → Downstream c n m
        → node c m ≡ some mb
        → mb.kind ≡ computed
        → mb.disposed ≡ false
        → In d mb.dependents
        → Downstream c n d

  StackOf-forced_marked :
      (c : Context V) (ds : List ℕ) → All (NoSource c) ds → StackOf c (forced_marked ds)
  StackOf-forced_marked c [] all = tt
  StackOf-forced_marked c (d ∷ ds) all = (all.0, StackOf-forced_marked c ds all.1)

  invalidate-source :
      (fuel : ℕ) (c : Context V) (n : ℕ) (nb : Node V)
      → node c n ≡ some nb
      → nb.kind ≡ source
      → invalidate fuel c n ≡ mark_cone fuel c (forced_marked nb.dependents) true
  unfolding invalidate mark_dependents
  invalidate-source fuel c n nb e k = rw (e, invalidate) (rw k refl)

  Downstream-Marked :
      (c c' : Context V) (n d : ℕ) (nb : Node V)
      → SameShape c' c
      → node c n ≡ some nb
      → Walked c c' nb.dependents
      → Downstream c n d
      → Marked c'.nodes d
  Downstream-Marked c c' n d nb same e walked (direct x at i) =
      All_at (Marked c'.nodes) nb.dependents d walked.roots
        (subst (λ (y : Node V). In d y.dependents) (some_inj (sym at ∙ e)) i)
  Downstream-Marked c c' n d nb same e walked (further {m = m} mb below at k live i) =
      let (now, found, alike) = get_elem?-map_same shape c.nodes c'.nodes m mb (sym same) at in
      let k' : now.kind ≡ computed = ap (λ (y : Node V). y.kind) (sym alike) ∙ k in
      let live' : now.disposed ≡ false = ap (λ (y : Node V). y.disposed) (sym alike) ∙ live in
      let marked = Downstream-Marked c c' n m nb same e walked below now found k' live' in
      elim (All_at (λ a. Marked c'.nodes a ⊎ In a []) now.dependents d
        (walked.closed m now found k' live' marked.0)
        (subst (In d) (ap (λ (y : Node V). y.dependents) alike) i)) [
          | inl m' ↦ m'
          | inr none_left ↦ elim none_left [ ]
        ]

  -- A write of a `Source` reaches the whole cone below it. With enough fuel for its dependents and for
  -- what every node can still push, `invalidate` returns a context that has the same nodes up to
  -- their marks. In it every live `Computed` below the source, through any number of live nodes, is
  -- dirty and not current, and the dependents of every live dirty `Computed` are marked, as they were
  -- before. No `Source` is a dependent.
  pub invalidate_marks_cone :
      (fuel : ℕ) (c : Context V) (n : ℕ) (nb : Node V)
      → node c n ≡ some nb
      → nb.kind ≡ source
      → SourcesReadNothing c
      → ClosedBut c.nodes []
      → mark_bound c (forced_marked nb.dependents) ≤ fuel
      → (c' : Context V) × (invalidate fuel c n ≡ some c')
        × SameShape c' c
        × ClosedBut c'.nodes []
        × ((d : ℕ) → Downstream c n d → Marked c'.nodes d)
  invalidate_marks_cone fuel c n nb e k w closed enough =
      let stack = forced_marked nb.dependents in
      let s = StackOf-forced_marked c nb.dependents (w n nb e) in
      let (c', found, same) = mark_cone_total fuel c stack true w s enough in
      let walked : Walked c c' nb.dependents =
        subst (Walked c c') (places-forced_marked nb.dependents) (
          mark_cone-Walked fuel c c' stack true w s
            (λ m x at kx live dirty.
              All-map x.dependents
                (λ d h. elim h [ inl m' ↦ inl m' | inr none_left ↦ elim none_left [ ] ])
                (closed m x at kx live dirty))
            found) in
      (
        c',
        invalidate-source fuel c n nb e k ∙ found,
        same,
        walked.closed,
        λ d below. Downstream-Marked c c' n d nb same e walked below,
      )
