-- ===== src/RateShape/Emits.antt =====
-- rateshape.go: what the operators emit, and when.
use native.Mathlib.Nat.{div-le_self, lt-div-mul-add, div-mul-le_self}
use lazily_go.Base.{
  ◌*◌, ◌+◌, ◌++◌, ◌-◌, ◌/◌, ◌<◌, if◌then◌else◌, ◌||◌, ◌∙◌, ◌∷◌, ◌≡◌, ◌≤◌, All, Bool, List, Option,
  [], ap, arith, false, if_elim, leb, none, refl, some, subst, sym, true, ℕ,
}
use lazily_go.RateShape.{
  DebounceCore, debounce_input, debounce_tick, ThrottleCore, leading, throttle_input, SampleCore,
  inside, new_throttle_core, sample_tick, sample_time, throttle_input_in, rs_max, sample_tick_in,
}
use lazily_go.Base.Word.{add_u64, word_mod}

abbrev pub cons_some {ℓ} : {T : Type ℓ} → Option T → List T → List T
cons_some none vs = vs
cons_some (some v) vs = v ∷ vs

-- Some reading of the clock has reached the time.
abbrev pub reaches : ℕ → List ℕ → Bool
reaches at [] = false
reaches at (now ∷ times) = leb at now || reaches at times

module _ {ℓ} {T : Type ℓ} where
  -- The values that are emitted while the clock is read at the given times.
  pub debounced : DebounceCore T → List ℕ → List T
  debounced d [] = []
  debounced d (now ∷ times) =
      let (d', v) = debounce_tick d now in let rest = debounced d' times in cons_some v rest

  debounced_off : (d : DebounceCore T) (times : List ℕ) → d.armed ≡ false → debounced d times ≡ []
  unfolding debounced debounce_tick
  debounced_off d [] off = refl
  debounced_off d (now ∷ times) off = ground (arith, debounced_off d times off)

  debounced_armed :
      (d : DebounceCore T) (v : T) (times : List ℕ)
      → d.armed ≡ true
      → d.pending ≡ some v
      → debounced d times ≡ (if reaches d.fire_at times then v ∷ [] else [])
  unfolding debounced debounce_tick
  debounced_armed d v [] on e = refl
  debounced_armed d v (now ∷ times) on e = ground (
    arith,
    debounced_armed d v times on e,
    debounced_off (record d { armed = false; pending = none }) times refl,
  )

  -- The inputs one after the other.
  pub debounce_inputs : DebounceCore T → List (ℕ × T) → DebounceCore T
  debounce_inputs d [] = d
  debounce_inputs d ((now, v) ∷ inputs) = debounce_inputs (debounce_input d now v) inputs

  -- A burst of inputs gives one value, the last one, once the clock has reached the time of the last
  -- input plus the quiet period, a sum on `uint64`, and gives nothing before, and nothing after.
  pub debounce_burst :
      (d : DebounceCore T) (burst : List (ℕ × T)) (now : ℕ) (v : T) (times : List ℕ)
      → debounced (debounce_inputs d (burst ++ (now, v) ∷ [])) times
        ≡ (if reaches (add_u64 now d.quiet) times then v ∷ [] else [])
  unfolding debounce_inputs debounce_input
  debounce_burst d [] now v times = debounced_armed (debounce_input d now v) v times refl refl
  debounce_burst d ((t, w) ∷ burst) now v times =
      debounce_burst (debounce_input d t w) burst now v times

succ_mul : (q p : ℕ) → (q + 1) * p ≡ q * p + p
succ_mul q p = ground arith

-- Times that are at least the window apart, and not before the first.
abbrev pub SpacedFrom : ℕ → ℕ → List ℕ → Type 0
SpacedFrom first window [] = Unit
SpacedFrom first window (t ∷ times) = (first ≤ t) × SpacedFrom (t + window) window times

abbrev open_until : Option ℕ → ℕ
open_until none = 0
open_until (some end_) = end_

abbrev cons_time {ℓ} : {T : Type ℓ} → ℕ → Option T → List ℕ → List ℕ
cons_time now none times = times
cons_time now (some v) times = now ∷ times

module _ {ℓ} {T : Type ℓ} where
  -- The times of the inputs that the throttle lets pass.
  pub passed : ThrottleCore T → List (ℕ × T) → List ℕ
  passed c [] = []
  passed c ((now, v) ∷ inputs) =
      let (c', out) = throttle_input c now v in
      let rest = passed c' inputs in cons_time now out rest

  passed_from :
      (window : ℕ) (end_ : Option ℕ) (c : ThrottleCore T) (inputs : List (ℕ × T))
      → c.edge ≡ leading
      → c.window ≡ window
      → c.window_end ≡ end_
      → All (λ (i : ℕ × T). i.0 + window < word_mod) inputs
      → SpacedFrom (open_until end_) window (passed c inputs)
  unfolding passed throttle_input
  passed_from window end_ c [] l w e small = tt
  passed_from window end_ c ((now, v) ∷ inputs) l w e (fits, small) =
      subst Goal (sym (ap (λ edge. throttle_input_in edge c now v) l)) (
        if_elim Goal (inside c.window_end now) (λ _. passed_from window end_ c inputs l w e small)
          (λ out. (
            opened end_ (ap (λ x. inside x now) (sym e) ∙ out),
            passed_from window (some (now + window))
                (record c { window_end = some (add_u64 now c.window) }) inputs l w
                (ap some (omega arith)) small,
          )))
    where
      Goal : ThrottleCore T × Option T → Type 0
      Goal (c', out) = SpacedFrom (open_until end_) window (cons_time now out (passed c' inputs))

      opened : (x : Option ℕ) → inside x now ≡ false → open_until x ≤ now
      opened none h = omega arith
      opened (some x) h = ground arith

  -- A leading throttle lets inputs pass at times that are at least the window apart, whatever the order
  -- of the inputs' times, as long as no time plus the window leaves `uint64`.
  pub throttle_spaced :
      (window : ℕ) (inputs : List (ℕ × T))
      → All (λ (i : ℕ × T). i.0 + window < word_mod) inputs
      → SpacedFrom 0 window (passed (new_throttle_core leading window) inputs)
  unfolding new_throttle_core
  throttle_spaced window inputs small =
      passed_from window none (new_throttle_core leading window) inputs refl refl refl small

  abbrev Boundary : SampleCore T → ℕ → ℕ → SampleCore T × Option T → Type ℓ
  Boundary c period now x =
      (now < c.next → x ≡ (c, none))
      × (c.next ≤ now → (x.1 ≡ c.held) × (now < x.0.next) × (x.0.next ≤ now + period))

  Boundary-tick :
      (c : SampleCore T) (period now : ℕ)
      → 1 ≤ period
      → now + period < word_mod
      → Boundary c period now (sample_tick_in (sample_time period) c now)
  unfolding sample_tick_in
  Boundary-tick c period now one fits =
      let d = now - c.next in
      let low = div-mul-le_self d period in
      let high = lt-div-mul-add {a = d} one in
      let few = div-le_self d period in
      let prod = succ_mul (d / period) period in
      let top : rs_max period 1 ≡ period = ground arith in
      rw (top) (ground (arith, low, high, few, prod))

  -- A tick of a time sampler at or after its boundary gives the value that it holds, and moves the
  -- boundary to the first one after the tick; a tick before it gives nothing and changes nothing.
  sample_boundary :
      (c : SampleCore T) (period now : ℕ)
      → c.mode ≡ sample_time period
      → 1 ≤ period
      → now + period < word_mod
      → (now < c.next → sample_tick c now ≡ (c, none))
        × (c.next ≤ now
            → ((sample_tick c now).1 ≡ c.held)
              × (now < (sample_tick c now).0.next)
              × ((sample_tick c now).0.next ≤ now + period))
  unfolding sample_tick
  sample_boundary c period now m one fits =
      subst (λ mode. Boundary c period now (sample_tick_in mode c now)) (sym m)
        (Boundary-tick c period now one fits)
