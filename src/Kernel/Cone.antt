-- ===== src/Kernel/Cone.antt =====
-- core.go, `markCone` and `invalidate`: the live nodes below the written one.
use lazily_go.Base.{
  ◌++◌, ◌==◌, if◌then◌else◌, ◌∙◌, ◌∷◌, ◌≡◌, ◌⊎◌, ==-self, ==_iff, All, All-map, All-of_In, Bool,
  Bool-cases, In, In-append_left, In-append_right, List, [], ap, arith, false, get_elem?,
  get_elem?-set, get_elem?-set_cases, if_elim, inl, inr, set, some, some_inj, subst, sym, true, ℕ,
}
use lazily_go.Kernel.{Node, computed, stale_node, effect, learns}

All-In-append {κ} : (P : ℕ → Type κ) (ds todo : List ℕ) → All (λ d. P d ⊎ In d (ds ++ todo)) ds
All-In-append P ds todo =
    All-of_In (λ d. P d ⊎ In d (ds ++ todo)) ds (λ d i. inr (In-append_left d ds todo i))

module _ {ℓ} {V : Type ℓ} where
  -- If a live `Computed` stands at the place, it is dirty and its value is not current.
  abbrev pub Marked : List (Node V) → ℕ → Type ℓ
  Marked ns d =
      (nb : Node V)
      → get_elem? ns d ≡ some nb
      → nb.kind ≡ computed
      → nb.disposed ≡ false
      → (nb.dirty ≡ true) × (nb.cached ≡ false)

  -- The dependents of a live dirty `Computed` are marked, or the walk still has to come to them.
  abbrev pub ClosedBut : List (Node V) → List ℕ → Type ℓ
  ClosedBut ns todo =
      (n : ℕ) (nb : Node V)
      → get_elem? ns n ≡ some nb
      → nb.kind ≡ computed
      → nb.disposed ≡ false
      → nb.dirty ≡ true
      → All (λ d. Marked ns d ⊎ In d todo) nb.dependents

  Marked-stale :
      (ns : List (Node V)) (n d : ℕ) (nb : Node V) (force : Bool)
      → get_elem? ns n ≡ some nb
      → Marked ns d
      → Marked (set ns n (stale_node nb force)) d
  unfolding stale_node
  Marked-stale ns n d nb force e m x at k live = elim (Bool-cases (n == d)) [
    | inl same ↦
        let got : some (stale_node nb force) ≡ some x =
          rw (same) at (sym (get_elem?-set ns n d (stale_node nb force) nb e) ∙ at) in
        (ground arith, ground arith)
    | inr other ↦
        m x (rw other at (sym (get_elem?-set ns n d (stale_node nb force) nb e) ∙ at)) k live
  ]

  Marked-stale_self :
      (ns : List (Node V)) (n : ℕ) (nb : Node V) (force : Bool)
      → get_elem? ns n ≡ some nb
      → Marked (set ns n (stale_node nb force)) n
  unfolding stale_node
  Marked-stale_self ns n nb force e x at k live =
      let got : some (stale_node nb force) ≡ some x =
        rw (==-self n) at (sym (get_elem?-set ns n n (stale_node nb force) nb e) ∙ at) in
      (ground arith, ground arith)

  Marked-force_run :
      (ns : List (Node V)) (n d : ℕ) (nb : Node V)
      → get_elem? ns n ≡ some nb
      → Marked ns d
      → Marked (set ns n (record nb { force_run = true })) d
  Marked-force_run ns n d nb e m x at k live = elim (Bool-cases (n == d)) [
    | inl same ↦
        let got : some (record nb { force_run = true }) ≡ some x =
          rw same at (sym (get_elem?-set ns n d (record nb { force_run = true }) nb e) ∙ at) in
        let old : get_elem? ns d ≡ some nb = rw (← (==_iff n d).0 same) e in
        ground (arith, m nb old)
    | inr other ↦
        m x (rw other at (sym (get_elem?-set ns n d (record nb { force_run = true }) nb e) ∙ at)) k
          live
  ]

  -- What a round does for the walk: marks are kept, its node is marked, and what is left to come to
  -- are the entries that it pushes in place of its node.
  pub record Advances (ns ns' : List (Node V)) (n : ℕ) (pushed : List ℕ) : Type ℓ where
    pub keeps : (d : ℕ) → Marked ns d → Marked ns' d
    pub marks : Marked ns' n
    pub closes : (todo : List ℕ) → ClosedBut ns (n ∷ todo) → ClosedBut ns' (pushed ++ todo)

  -- A dependent that was marked or to be come to, still is.
  carried :
      (ns' : List (Node V)) (ns : List (Node V)) (n d : ℕ) (pushed todo : List ℕ)
      → (Marked ns d → Marked ns' d)
      → Marked ns' n
      → Marked ns d ⊎ In d (n ∷ todo)
      → Marked ns' d ⊎ In d (pushed ++ todo)
  carried ns' ns n d pushed todo keeps marks (inl m) = inl (keeps m)
  carried ns' ns n d pushed todo keeps marks (inr (inl e)) = inl (subst (Marked ns') e marks)
  carried ns' ns n d pushed todo keeps marks (inr (inr i)) = inr (In-append_right d pushed todo i)

  pub Advances-same : (ns : List (Node V)) (n : ℕ) → Marked ns n → Advances ns ns n []
  Advances-same ns n m = record {
    keeps = λ d h. h;
    marks = m;
    closes = λ todo closed a nb at k live dirty.
        All-map nb.dependents (λ d h. carried ns ns n d [] todo (λ x. x) m h)
          (closed a nb at k live dirty);
  }

  pub Advances-force_run :
      (ns : List (Node V)) (n : ℕ) (nb : Node V)
      → get_elem? ns n ≡ some nb
      → nb.kind ≡ effect
      → Advances ns (set ns n (record nb { force_run = true })) n []
  Advances-force_run ns n nb e k = record {
    keeps = λ d m. Marked-force_run ns n d nb e m;
    marks = not_here;
    closes = λ todo closed a x at kx live dirty.
        elim (get_elem?-set_cases ns n a (record nb { force_run = true }) nb x e at) [
          | inl (_, same) ↦ absurd (cc (k, ap (λ (y : Node V). y.kind) same, kx))
          | inr old ↦
              All-map x.dependents
                (λ d h.
                  carried (set ns n (record nb { force_run = true })) ns n d [] todo
                    (λ m. Marked-force_run ns n d nb e m) not_here h)
                (closed a x old kx live dirty)
        ];
  }
    where
      not_here : Marked (set ns n (record nb { force_run = true })) n
      not_here =
          Marked-force_run ns n n nb e (λ x at kx live.
            absurd (cc (k, ap (λ (y : Node V). y.kind) (some_inj (sym e ∙ at)), kx)))

  -- Where the round pushes nothing, the node was dirty before.
  not_learns : (nb : Node V) (force : Bool) → learns nb force ≡ false → nb.dirty ≡ true
  not_learns nb force h = ground arith

  stale_parts :
      (nb x : Node V) (force : Bool)
      → stale_node nb force ≡ x
      → (nb.dependents ≡ x.dependents) × (nb.kind ≡ x.kind) × (nb.disposed ≡ x.disposed)
  unfolding stale_node
  stale_parts nb x force e = (
    ap (λ (y : Node V). y.dependents) e,
    ap (λ (y : Node V). y.kind) e,
    ap (λ (y : Node V). y.disposed) e,
  )

  pub Advances-stale :
      (ns : List (Node V)) (n : ℕ) (nb : Node V) (force : Bool)
      → get_elem? ns n ≡ some nb
      → Advances ns
          (set ns n (stale_node nb force))
          n
          (if learns nb force then nb.dependents else [])
  Advances-stale ns n nb force e = record {
    keeps = λ d m. Marked-stale ns n d nb force e m;
    marks = Marked-stale_self ns n nb force e;
    closes = λ todo closed a x at kx live dirty.
        elim (get_elem?-set_cases ns n a (stale_node nb force) nb x e at) [
          | inl (_, same) ↦
              let (ds, k, gone) = stale_parts nb x force same in
              subst (All (λ d. Marked new d ⊎ In d (pushed ++ todo))) ds
                (here todo closed (k ∙ kx) (gone ∙ live))
          | inr old ↦
              All-map x.dependents (λ d h. carry pushed todo d h) (closed a x old kx live dirty)
        ];
  }
    where
      new : List (Node V)
      new = set ns n (stale_node nb force)

      pushed : List ℕ
      pushed = if learns nb force then nb.dependents else []

      carry :
          (ps todo : List ℕ) (d : ℕ)
          → Marked ns d ⊎ In d (n ∷ todo)
          → Marked new d ⊎ In d (ps ++ todo)
      carry ps todo d h =
          carried new ns n d ps todo (λ m. Marked-stale ns n d nb force e m)
            (Marked-stale_self ns n nb force e) h

      here :
          (todo : List ℕ)
          → ClosedBut ns (n ∷ todo)
          → nb.kind ≡ computed
          → nb.disposed ≡ false
          → All (λ d. Marked new d ⊎ In d (pushed ++ todo)) nb.dependents
      here todo closed k live =
          if_elim (λ ps. All (λ d. Marked new d ⊎ In d (ps ++ todo)) nb.dependents)
            (learns nb force) (λ _. All-In-append (Marked new) nb.dependents todo)
            (λ idle.
              All-map nb.dependents (λ d h. carry [] todo d h)
                (closed n nb e k live (not_learns nb force idle)))
