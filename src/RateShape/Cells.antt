-- ===== src/RateShape/Cells.antt =====
-- rateshape.go: `DebounceCell`, `ThrottleCell` and `SampleCell`, the cores with the reader of what they
-- emitted last.
use lazily_go.Base.{Comparable, Option, none, ℕ, ℕ_comparable, bool_comparable, option_comparable}
use lazily_go.Cell.{SourceCell, new_source}
use lazily_go.RateShape.{
  DebounceCore, SampleCore, SampleMode, ThrottleCore, ThrottleEdge, debounce_input, debounce_tick,
  new_debounce_core, new_sample_core, new_throttle_core, sample_input, sample_tick, set_output,
  throttle_input, throttle_tick,
}

pub record DebounceCell {ℓ} (T : Type ℓ) : Type ℓ where
  pub core : DebounceCore T
  pub output : SourceCell (Option T)

pub record ThrottleCell {ℓ} (T : Type ℓ) : Type ℓ where
  pub core : ThrottleCore T
  pub output : SourceCell (Option T)

pub record SampleCell {ℓ} (T : Type ℓ) : Type ℓ where
  pub core : SampleCore T
  pub output : SourceCell (Option T)

module _ {ℓ} {T : Type ℓ} where
  unfoldable pub new_debounce_cell : ℕ → DebounceCell T
  unfolding new_debounce_core new_source
  new_debounce_cell quiet = record { core = new_debounce_core quiet; output = new_source none }

  unfoldable pub new_throttle_cell : ThrottleEdge → ℕ → ThrottleCell T
  unfolding new_throttle_core new_source
  new_throttle_cell edge window = record {
    core = new_throttle_core edge window;
    output = new_source none;
  }

  unfoldable pub new_sample_cell : SampleMode → SampleCell T
  unfolding new_sample_core new_source
  new_sample_cell mode = record { core = new_sample_core mode; output = new_source none }

  unfoldable pub debounce_cell_input : DebounceCell T → ℕ → T → DebounceCell T
  unfolding debounce_input
  debounce_cell_input c now v = record c { core = debounce_input c.core now v }

module _ {ℓ} {T : Type ℓ} ⦃e : Comparable T⦄ where
  unfoldable pub debounce_cell_tick : DebounceCell T → ℕ → DebounceCell T × Option T
  unfolding debounce_tick set_output
  debounce_cell_tick c now =
      let (core, emitted) = debounce_tick c.core now in
      (record { core = core; output = set_output c.output emitted }, emitted)

  unfoldable pub throttle_cell_input : ThrottleCell T → ℕ → T → ThrottleCell T × Option T
  unfolding throttle_input set_output
  throttle_cell_input c now v =
      let (core, emitted) = throttle_input c.core now v in
      (record { core = core; output = set_output c.output emitted }, emitted)

  unfoldable pub throttle_cell_tick : ThrottleCell T → ℕ → ThrottleCell T × Option T
  unfolding throttle_tick set_output
  throttle_cell_tick c now =
      let (core, emitted) = throttle_tick c.core now in
      (record { core = core; output = set_output c.output emitted }, emitted)

  unfoldable pub sample_cell_input : SampleCell T → T → SampleCell T × Option T
  unfolding sample_input set_output
  sample_cell_input c v =
      let (core, emitted) = sample_input c.core v in
      (record { core = core; output = set_output c.output emitted }, emitted)

  unfoldable pub sample_cell_tick : SampleCell T → ℕ → SampleCell T × Option T
  unfolding sample_tick set_output
  sample_cell_tick c now =
      let (core, emitted) = sample_tick c.core now in
      (record { core = core; output = set_output c.output emitted }, emitted)
