-- ===== src/Window/Boundary.antt =====
-- windowing.go, `TumblingTimeCore.Tick`: the loop to the next boundary.
use lazily_go.Base.{
  ◌+◌, ◌<◌, ◌∙◌, ◌≡◌, ◌≤◌, ◌⊎◌, Bool-cases, Option, ap, arith, inl, inr, leb, leb→le, ltb, ltb→lt,
  none, refl, some, suc, zero, ℕ,
}
use lazily_go.Window.{next_after, TumblingTimeCore, tumbling_time_tick}
use lazily_go.Base.Word.{max_uint64, add_u64}

-- The boundaries that follow one: whole periods behind it.
pub data Boundary (period : ℕ) : ℕ → ℕ → Type 0 where
  here : {at : ℕ} → Boundary period at at
  later : {at to : ℕ} → Boundary period (at + period) to → Boundary period at to

next_after-total :
    (fuel period next now : ℕ)
    → 1 ≤ period
    → now + period ≤ max_uint64
    → now + 2 ≤ next + fuel
    → 1 ≤ fuel
    → (to : ℕ) × (next_after fuel period next now ≡ some to)
      × Boundary period next to
      × (now < to)
      × (((now < next) × (to ≡ next)) ⊎ (to ≤ now + period))
unfolding next_after
next_after-total zero period next now p r f one = absurd (omega arith)
next_after-total (suc fuel) period next now p r f one = elim (Bool-cases (leb next now)) [
  | inl more ↦
      let reached : next ≤ now = leb→le next now more in
      let exact : add_u64 next period ≡ next + period = omega arith in
      let (to, e, b, after, close) =
        next_after-total fuel period (next + period) now p r (omega arith) (omega arith) in
      (
        to,
        rw more (ap (λ x. next_after fuel period x now) exact ∙ e),
        later b,
        after,
        inr (elim close [ inl (_, at_once) ↦ omega arith | inr near ↦ near ]),
      )
  | inr past ↦ (next, rw past refl, here, ground arith, inl (ground arith, refl))
]

-- A tick returns, where the sum of its time and of the period is a `uint64`, with fuel for the ticks
-- until then: before the boundary it emits nothing and changes nothing, and from the boundary on it
-- emits what the window holds, empties it, and moves on to the first boundary after its time, whole
-- periods behind the old one.
pub tumbling_time_tick-total {ℓ} :
    {T : Type ℓ} (c : TumblingTimeCore T) (now : ℕ)
    → 1 ≤ c.period
    → now + c.period ≤ max_uint64
    → (c' : TumblingTimeCore T) × (out : Option T) × (tumbling_time_tick (now + 2) c now
        ≡ some (c', out))
      × Boundary c.period c.next_at c'.next_at
      × (now < c'.next_at)
      × (((now < c.next_at) × (c' ≡ c) × (out ≡ none))
          ⊎ ((c.next_at ≤ now) × (c'.acc ≡ none) × (out ≡ c.acc) × (c'.next_at ≤ now + c.period)))
unfolding tumbling_time_tick
tumbling_time_tick-total c now p r = elim (Bool-cases (ltb now c.next_at)) [
  | inl early ↦ (
    c,
    none,
    rw (tumbling_time_tick, early) refl,
    here,
    ltb→lt now c.next_at early,
    inl (ltb→lt now c.next_at early, refl, refl),
  )
  | inr due ↦
      let (to, e, b, after, close) =
        next_after-total (now + 2) c.period c.next_at now p r (omega arith) (omega arith) in
      (
        record c { next_at = to; acc = none },
        c.acc,
        rw (tumbling_time_tick, due, e) refl,
        b,
        after,
        inr (
          ground arith,
          refl,
          refl,
          elim close [ inl (before, _) ↦ absurd (ground arith) | inr near ↦ near ],
        ),
      )
]
