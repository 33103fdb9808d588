-- ===== src/Kernel/Tests.antt =====
-- A small graph: a source, two computed nodes over it in a row, and an effect.
use lazily_go.Base.{
  ◌∙◌, ◌∷◌, ◌≡◌, ◌≢◌, All, Bool, List, [], ap, arith, false, none, refl, some, some_inj, subst, suc,
  true, zero, ℕ,
}
use lazily_go.Kernel.{Context, Node, NodeKind, computed, done, effect, invalidate, source}
use lazily_go.Kernel.Round.{NoSource, SameShape, SourcesReadNothing}
use lazily_go.Kernel.Cone.{ClosedBut, Marked}
use lazily_go.Kernel.Invalidate.{Downstream, invalidate_marks_cone}

abbrev bare : NodeKind → List ℕ → Bool → Node ℕ
bare k ds cached = record {
  kind = k;
  dependents = ds;
  dependencies = [];
  disposed = false;
  dirty = false;
  force_recompute = false;
  value = 0;
  compute = done 0;
  equals = none;
  cached = cached;
  has_value = true;
  refreshing = false;
  active = true;
  force_run = false;
}

abbrev graph : Context ℕ
graph = record {
  nodes =
      bare source (1 ∷ []) false
      ∷ bare computed (2 ∷ []) true
      ∷ bare computed (3 ∷ []) true
      ∷ bare effect [] false
      ∷ [];
  cached_count = 2;
  batch_depth = 0;
  batched_cells = [];
  pending_effects = [];
  scheduled_effects = [];
  flushing_effects = false;
  disposing = 0;
}

not_source :
    (k : NodeKind) (ds : List ℕ) (b : Bool) (x : Node ℕ)
    → some (bare k ds b) ≡ some x
    → k ≢ source
    → x.kind ≢ source
not_source k ds b x e h s = h (ap (λ (y : Node ℕ). y.kind) (some_inj e) ∙ s)

graph-SourcesReadNothing : SourcesReadNothing graph
graph-SourcesReadNothing zero x e =
    subst (λ (y : Node ℕ). All (NoSource graph) y.dependents) (some_inj e)
      ((λ y at. not_source computed (2 ∷ []) true y at (λ k. cc)), tt)
graph-SourcesReadNothing (suc zero) x e =
    subst (λ (y : Node ℕ). All (NoSource graph) y.dependents) (some_inj e)
      ((λ y at. not_source computed (3 ∷ []) true y at (λ k. cc)), tt)
graph-SourcesReadNothing (suc (suc zero)) x e =
    subst (λ (y : Node ℕ). All (NoSource graph) y.dependents) (some_inj e)
      ((λ y at. not_source effect [] false y at (λ k. cc)), tt)
graph-SourcesReadNothing (suc (suc (suc zero))) x e =
    subst (λ (y : Node ℕ). All (NoSource graph) y.dependents) (some_inj e) tt
graph-SourcesReadNothing (suc (suc (suc (suc n)))) x e = absurd (cc e)

clean :
    (k : NodeKind) (ds : List ℕ) (b : Bool) (x : Node ℕ)
    → some (bare k ds b) ≡ some x
    → ¬ (x.dirty ≡ true)
clean k ds b x e d = cc (ap (λ (y : Node ℕ). y.dirty) (some_inj e), d)

graph-ClosedBut : ClosedBut graph.nodes []
graph-ClosedBut zero x e k l d = absurd (clean source (1 ∷ []) false x e d)
graph-ClosedBut (suc zero) x e k l d = absurd (clean computed (2 ∷ []) true x e d)
graph-ClosedBut (suc (suc zero)) x e k l d = absurd (clean computed (3 ∷ []) true x e d)
graph-ClosedBut (suc (suc (suc zero))) x e k l d = absurd (clean effect [] false x e d)
graph-ClosedBut (suc (suc (suc (suc n)))) x e k l d = absurd (cc e)

invalidate_marks_cone_example :
    (c' : Context ℕ) × (invalidate 20 graph 0 ≡ some c')
    × SameShape c' graph
    × ClosedBut c'.nodes []
    × ((d : ℕ) → Downstream graph 0 d → Marked c'.nodes d)
invalidate_marks_cone_example =
    invalidate_marks_cone 20 graph 0 (bare source (1 ∷ []) false) refl refl graph-SourcesReadNothing
      graph-ClosedBut (omega arith)
