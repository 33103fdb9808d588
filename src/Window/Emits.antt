-- ===== src/Window/Emits.antt =====
-- windowing.go: what the windows emit over any pushes, against windows that hold all their elements.
use lazily_go.Base.{
  ◌+◌, ◌++◌, ◌<◌, ◌==◌, if◌then◌else◌, ◌∙◌, ◌∷◌, ◌≡◌, ◌≤◌, Bool-cases, List, Option, [], ap, arith,
  false, inl, inr, leb, length, length-append, none, refl, some, sym, true, ℕ,
}
use lazily_go.Window.{
  MergePolicy, TumblingCountCore, fold_from, fold_window, merge_into, tumbling_count_push,
  at_least_one, new_tumbling_count,
}
use lazily_go.Base.Word.{max_uint64, add_u64}

module _ {ℓ} {T : Type ℓ} where
  abbrev pub emitted : Option T → List T
  emitted none = []
  emitted (some v) = v ∷ []

  -- The aggregates that a count window emits over the pushes.
  unfoldable pub tumbling_count_run : TumblingCountCore T → List T → List T
  unfolding tumbling_count_push
  tumbling_count_run c [] = []
  tumbling_count_run c (v ∷ vs) =
      let (c', out) = tumbling_count_push c v in emitted out ++ tumbling_count_run c' vs

  -- The same from the elements themselves: every `n` of them are folded, and those in `begun` are the
  -- start of the next window.
  unfoldable pub chunk_folds : MergePolicy T → ℕ → List T → List T → List T
  chunk_folds policy n begun [] = []
  chunk_folds policy n begun (v ∷ vs) =
      let window = begun ++ v ∷ [] in
      let closed = emitted (fold_window policy window) ++ chunk_folds policy n [] vs in
      let still = chunk_folds policy n window vs in if n == length window then closed else still

  fold_from-append :
      (policy : MergePolicy T) (acc : Option T) (xs : List T) (v : T)
      → fold_from policy acc (xs ++ v ∷ []) ≡ merge_into policy (fold_from policy acc xs) v
  fold_from-append policy acc [] v = refl
  fold_from-append policy acc (x ∷ xs) v = fold_from-append policy (merge_into policy acc x) xs v

  pushed_full :
      (c : TumblingCountCore T) (v : T)
      → leb c.n (add_u64 c.count 1) ≡ true
      → tumbling_count_push c v ≡ (record c { acc = none; count = 0 }, merge_into c.policy c.acc v)
  unfolding tumbling_count_push
  pushed_full c v full = rw (full, tumbling_count_push) refl

  pushed_more :
      (c : TumblingCountCore T) (v : T)
      → leb c.n (add_u64 c.count 1) ≡ false
      → tumbling_count_push c v
        ≡ (record c { acc = merge_into c.policy c.acc v; count = add_u64 c.count 1 }, none)
  unfolding tumbling_count_push
  pushed_more c v more = rw (more, tumbling_count_push) refl

  tumbling_count_run-folds :
      (c : TumblingCountCore T) (begun vs : List T)
      → c.acc ≡ fold_window c.policy begun
      → c.count ≡ length begun
      → length begun < c.n
      → c.n ≤ max_uint64
      → tumbling_count_run c vs ≡ chunk_folds c.policy c.n begun vs
  unfolding tumbling_count_run chunk_folds tumbling_count_push
  tumbling_count_run-folds c begun [] e k less r = refl
  tumbling_count_run-folds c begun (v ∷ vs) e k less r =
      let count : add_u64 c.count 1 ≡ length begun + 1 = omega (arith, k) in
      let longer : length (begun ++ v ∷ []) ≡ length begun + 1 =
        length-append begun (v ∷ []) ∙ omega arith in
      let acc : merge_into c.policy c.acc v ≡ fold_window c.policy (begun ++ v ∷ []) =
        ap (λ a. merge_into c.policy a v) e ∙ sym (fold_from-append c.policy none begun v) in
      let emptied : TumblingCountCore T = record c { acc = none; count = 0 } in
      elim (Bool-cases (c.n == length (begun ++ v ∷ []))) [
        | inl full ↦
            rw (pushed_full c v (ground (arith, count, longer)), full)
              (ap (λ a. emitted a ++ tumbling_count_run emptied vs) acc
                ∙ ap (λ z. emitted (fold_window c.policy (begun ++ v ∷ [])) ++ z)
                    (tumbling_count_run-folds emptied [] vs refl refl (omega arith) r))
        | inr more ↦
            rw (pushed_more c v (ground (arith, count, longer)), more)
              (tumbling_count_run-folds
                (record c { acc = merge_into c.policy c.acc v; count = add_u64 c.count 1 })
                (begun ++ v ∷ []) vs acc (count ∙ sym longer) (ground (arith, longer)) r)
      ]

  -- Over any pushes on a new count window whose size is a `uint64`, the aggregates that it emits are the
  -- folds of the pushed elements, cut into runs of the size of the window, where a size of 0 counts as 1.
  pub tumbling_count_run-chunks :
      (n : ℕ) (policy : MergePolicy T) (vs : List T)
      → n ≤ max_uint64
      → tumbling_count_run (new_tumbling_count n policy) vs
        ≡ chunk_folds policy (at_least_one n) [] vs
  unfolding new_tumbling_count
  tumbling_count_run-chunks n policy vs r =
      tumbling_count_run-folds (new_tumbling_count n policy) [] vs refl refl (ground arith)
        (ground arith)
