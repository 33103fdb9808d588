-- ===== src/RateShape.antt =====
-- rateshape.go: debounce, throttle and sample. Times are `uint64`s. `set_output` writes the reader of a
-- cell.
pub mod Emits
pub mod Cells
mod Tests
use lazily_go.Base.{
  ◌%◌, ◌&&◌, ◌*◌, ◌+◌, ◌-◌, ◌/◌, ◌==◌, if◌then◌else◌, Bool, Comparable, Option, false, leb, ltb,
  none, some, true, ℕ, ℕ_comparable, bool_comparable, option_comparable,
}
use lazily_go.Cell.{SourceCell, set_value}
use lazily_go.Base.Word.{add_u64, word_mod}

unfoldable pub set_output {ℓ} :
    {T : Type ℓ} ⦃c : Comparable T⦄ → SourceCell (Option T) → Option T → SourceCell (Option T)
unfolding set_value
set_output cell none = cell
set_output cell (some v) = set_value cell (some v)

-- `DebounceCore`.
pub record DebounceCore {ℓ} (T : Type ℓ) : Type ℓ where
  pub quiet : ℕ
  pub pending : Option T
  pub fire_at : ℕ
  pub armed : Bool

pub data ThrottleEdge : Type 0 where
  leading trailing : ThrottleEdge

-- `ThrottleCore`.
pub record ThrottleCore {ℓ} (T : Type ℓ) : Type ℓ where
  pub edge : ThrottleEdge
  pub window : ℕ
  pub window_end : Option ℕ
  pub window_start : Option ℕ
  pub pending : Option T

pub data SampleMode : Type 0 where
  sample_count sample_time : ℕ → SampleMode

-- `SampleCore`.
pub record SampleCore {ℓ} (T : Type ℓ) : Type ℓ where
  pub mode : SampleMode
  pub counter : ℕ
  pub next : ℕ
  pub held : Option T

-- `rsMax64`.
abbrev pub rs_max : ℕ → ℕ → ℕ
rs_max a b = if ltb b a then a else b

abbrev pub first_boundary : SampleMode → ℕ
first_boundary (sample_count n) = 0
first_boundary (sample_time period) = rs_max period 1

abbrev pub present {ℓ} : {A : Type ℓ} → Option A → Bool
present none = false
present (some a) = true

-- `c.windowEnd.Present && now < c.windowEnd.Value`.
abbrev pub inside : Option ℕ → ℕ → Bool
inside none now = false
inside (some end_) now = ltb now end_

module _ {ℓ} {T : Type ℓ} where
  unfoldable pub new_debounce_core : ℕ → DebounceCore T
  new_debounce_core quiet = record { quiet = quiet; pending = none; fire_at = 0; armed = false }

  unfoldable pub debounce_input : DebounceCore T → ℕ → T → DebounceCore T
  debounce_input d now v = record d {
    pending = some v;
    fire_at = add_u64 now d.quiet;
    armed = true;
  }

  unfoldable pub debounce_tick : DebounceCore T → ℕ → DebounceCore T × Option T
  debounce_tick d now =
      if d.armed && (present d.pending && leb d.fire_at now)
      then (record d { armed = false; pending = none }, d.pending)
      else (d, none)

  unfoldable pub new_throttle_core : ThrottleEdge → ℕ → ThrottleCore T
  new_throttle_core edge window = record {
    edge = edge;
    window = window;
    window_end = none;
    window_start = none;
    pending = none;
  }

  pub throttle_input_in : ThrottleEdge → ThrottleCore T → ℕ → T → ThrottleCore T × Option T
  throttle_input_in leading c now v =
      if inside c.window_end now
      then (c, none)
      else (record c { window_end = some (add_u64 now c.window) }, some v)
  throttle_input_in trailing c now v = (
    record c {
      window_start = if present c.window_start then c.window_start else some now;
      pending = some v;
    },
    none,
  )

  unfoldable pub throttle_input : ThrottleCore T → ℕ → T → ThrottleCore T × Option T
  unfolding throttle_input_in
  throttle_input c now v = throttle_input_in c.edge c now v

  throttle_tick_in : ThrottleEdge → Option ℕ → ThrottleCore T → ℕ → ThrottleCore T × Option T
  throttle_tick_in leading start c now = (c, none)
  throttle_tick_in trailing none c now = (c, none)
  throttle_tick_in trailing (some start) c now =
      if leb (add_u64 start c.window) now && present c.pending
      then (record c { window_start = none; pending = none }, c.pending)
      else (c, none)

  unfoldable pub throttle_tick : ThrottleCore T → ℕ → ThrottleCore T × Option T
  unfolding throttle_tick_in
  throttle_tick c now = throttle_tick_in c.edge c.window_start c now

  unfoldable pub new_sample_core : SampleMode → SampleCore T
  new_sample_core mode = record {
    mode = mode;
    counter = 0;
    next = first_boundary mode;
    held = none;
  }

  sample_input_in : SampleMode → SampleCore T → T → SampleCore T × Option T
  sample_input_in (sample_count n) c v =
      let counter = add_u64 c.counter 1 in
      (record c { counter = counter }, if counter % rs_max n 1 == 0 then some v else none)
  sample_input_in (sample_time period) c v = (record c { held = some v }, none)

  unfoldable pub sample_input : SampleCore T → T → SampleCore T × Option T
  unfolding sample_input_in
  sample_input c v = sample_input_in c.mode c v

  pub sample_tick_in : SampleMode → SampleCore T → ℕ → SampleCore T × Option T
  sample_tick_in (sample_count n) c now = (c, none)
  sample_tick_in (sample_time period) c now =
      let fires = add_u64 ((now - c.next) / rs_max period 1) 1 in
      if ltb now c.next
      then (c, none)
      else (record c { next = (c.next + fires * rs_max period 1) % word_mod }, c.held)

  unfoldable pub sample_tick : SampleCore T → ℕ → SampleCore T × Option T
  unfolding sample_tick_in
  sample_tick c now = sample_tick_in c.mode c now
