-- ===== src/Window.antt =====
-- merge.go, the policies, and windowing.go: the four windows and the reactive cells over them. `Opt` of
-- option.go is `Option`.
pub mod Policies
pub mod Emits
pub mod Boundary
mod Tests
use lazily_go.Base.{
  ◌&&◌, ◌++◌, ◌-◌, if◌then◌else◌, ◌||◌, ◌∷◌, Bool, Comparable, List, Option, [], false, leb, length,
  ltb, none, some, suc, true, zero, ℕ, ℕ_comparable, bool_comparable, option_comparable,
}
use lazily_go.Cell.{SourceCell, set_value}
use lazily_go.Base.Word.{add_u64}

-- `MergePolicy`, without its name.
pub record MergePolicy {ℓ} (T : Type ℓ) : Type ℓ where
  pub merge : T → T → T
  pub commutative : Bool
  pub idempotent : Bool
  pub conflates : Bool

module _ {ℓ} {T : Type ℓ} where
  -- `KeepLatest`.
  unfoldable pub keep_latest : MergePolicy T
  keep_latest = record {
    merge = λ old op. op;
    commutative = false;
    idempotent = true;
    conflates = true;
  }

  -- `RawFifo`.
  unfoldable pub raw_fifo : MergePolicy (List T)
  raw_fifo = record {
    merge = λ old op. old ++ op;
    commutative = false;
    idempotent = false;
    conflates = false;
  }

-- `Number`: the `+` and the `>` of a type of the constraint.
pub record Number {ℓ} (N : Type ℓ) : Type ℓ where
  pub plus : N → N → N
  pub greater : N → N → Bool

-- The operators of `uint64`.
abbrev pub uint64 : Number ℕ
uint64 = record { plus = add_u64; greater = λ a b. ltb b a }

module _ {ℓ} {N : Type ℓ} where
  -- `Sum`.
  unfoldable pub sum_policy : Number N → MergePolicy N
  sum_policy n = record { merge = n.plus; commutative = true; idempotent = false; conflates = true }

  -- `Max`.
  unfoldable pub max_policy : Number N → MergePolicy N
  max_policy n = record {
    merge = λ a b. if n.greater b a then b else a;
    commutative = true;
    idempotent = true;
    conflates = true;
  }

-- `SetUnion`; a set is the test of its members.
unfoldable pub set_union {ℓ} : {E : Type ℓ} → MergePolicy (E → Bool)
set_union = record {
  merge = λ old op e. old e || op e;
  commutative = true;
  idempotent = true;
  conflates = true;
}

-- `satSub`.
abbrev pub sat_sub : ℕ → ℕ → ℕ
sat_sub a b = if ltb a b then 0 else a - b

abbrev pub at_least_one : ℕ → ℕ
at_least_one n = if ltb n 1 then 1 else n

module _ {ℓ} {T : Type ℓ} where
  -- `mergeInto`.
  abbrev pub merge_into : MergePolicy T → Option T → T → Option T
  merge_into policy none v = some v
  merge_into policy (some acc) v = some (policy.merge acc v)

  -- The loop of `foldWindow`.
  abbrev pub fold_from : MergePolicy T → Option T → List T → Option T
  fold_from policy acc [] = acc
  fold_from policy acc (v ∷ items) = fold_from policy (merge_into policy acc v) items

  -- `foldWindow`.
  abbrev pub fold_window : MergePolicy T → List T → Option T
  fold_window policy items = fold_from policy none items

-- `TumblingCountCore`.
pub record TumblingCountCore {ℓ} (T : Type ℓ) : Type ℓ where
  pub n : ℕ
  pub policy : MergePolicy T
  pub acc : Option T
  pub count : ℕ

-- `TumblingTimeCore`.
pub record TumblingTimeCore {ℓ} (T : Type ℓ) : Type ℓ where
  pub period : ℕ
  pub next_at : ℕ
  pub policy : MergePolicy T
  pub acc : Option T

-- `SlidingCore`.
pub record SlidingCore {ℓ} (T : Type ℓ) : Type ℓ where
  pub size : ℕ
  pub slide : ℕ
  pub policy : MergePolicy T
  pub buffer : List T
  pub since : ℕ

-- `SessionCore`; `last` is there once an element was pushed.
pub record SessionCore {ℓ} (T : Type ℓ) : Type ℓ where
  pub gap : ℕ
  pub policy : MergePolicy T
  pub acc : Option T
  pub last_set : Bool
  pub last : ℕ

module _ {ℓ} {T : Type ℓ} where
  -- `NewTumblingCountCore`.
  unfoldable pub new_tumbling_count : ℕ → MergePolicy T → TumblingCountCore T
  new_tumbling_count n policy = record {
    n = at_least_one n;
    policy = policy;
    acc = none;
    count = 0;
  }

  -- `TumblingCountCore.Push`.
  unfoldable pub tumbling_count_push : TumblingCountCore T → T → TumblingCountCore T × Option T
  tumbling_count_push c v =
      let acc = merge_into c.policy c.acc v in
      let count = add_u64 c.count 1 in
      if leb c.n count
      then (record c { acc = none; count = 0 }, acc)
      else (record c { acc = acc; count = count }, none)

  -- `NewTumblingTimeCore`.
  unfoldable pub new_tumbling_time : ℕ → MergePolicy T → TumblingTimeCore T
  new_tumbling_time period policy = record {
    period = at_least_one period;
    next_at = at_least_one period;
    policy = policy;
    acc = none;
  }

  -- `TumblingTimeCore.Push`.
  unfoldable pub tumbling_time_push : TumblingTimeCore T → T → TumblingTimeCore T
  tumbling_time_push c v = record c { acc = merge_into c.policy c.acc v }

-- The loop of `TumblingTimeCore.Tick`, on fuel.
pub next_after : ℕ → ℕ → ℕ → ℕ → Option ℕ
next_after zero period next now = none
next_after (suc fuel) period next now =
    let later = next_after fuel period (add_u64 next period) now in
    if leb next now then later else some next

module _ {ℓ} {T : Type ℓ} where
  -- `TumblingTimeCore.Tick`; `none` where the fuel runs out.
  unfoldable pub tumbling_time_tick :
      ℕ → TumblingTimeCore T → ℕ → Option (TumblingTimeCore T × Option T)
  unfolding next_after
  tumbling_time_tick fuel c now =
      if ltb now c.next_at then some (c, none) else elim (next_after fuel c.period c.next_at now) [
        | none ↦ none
        | some next ↦ some (record c { next_at = next; acc = none }, c.acc)
      ]

  -- `NewSlidingCore`.
  unfoldable pub new_sliding : ℕ → ℕ → MergePolicy T → SlidingCore T
  new_sliding size slide policy = record {
    size = at_least_one size;
    slide = at_least_one slide;
    policy = policy;
    buffer = [];
    since = 0;
  }

  -- `for len(c.buffer) > c.size { c.buffer = c.buffer[1:] }`.
  unfoldable pub trim : ℕ → List T → List T
  trim size [] = []
  trim size (v ∷ buffer) =
      let rest = trim size buffer in if ltb size (length (v ∷ buffer)) then rest else v ∷ buffer

  -- `SlidingCore.Push`.
  unfoldable pub sliding_push : SlidingCore T → T → SlidingCore T × Option T
  unfolding trim
  sliding_push c v =
      let buffer = trim c.size (c.buffer ++ v ∷ []) in
      let since = add_u64 c.since 1 in
      if leb c.slide since
      then (record c { buffer = buffer; since = 0 }, fold_window c.policy buffer)
      else (record c { buffer = buffer; since = since }, none)

  -- `NewSessionCore`.
  unfoldable pub new_session : ℕ → MergePolicy T → SessionCore T
  new_session gap policy = record {
    gap = gap;
    policy = policy;
    acc = none;
    last_set = false;
    last = 0;
  }

  abbrev pub present : Option T → Bool
  present none = false
  present (some v) = true

  -- `idleBreak` and `idle`.
  abbrev pub idle : SessionCore T → ℕ → Bool
  idle c now = c.last_set && ltb c.gap (sat_sub now c.last) && present c.acc

  -- `SessionCore.Push`.
  unfoldable pub session_push : SessionCore T → ℕ → T → SessionCore T × Option T
  session_push c now v =
      if idle c now
      then (record c { acc = some v; last = now; last_set = true }, c.acc)
      else (record c { acc = merge_into c.policy c.acc v; last = now; last_set = true }, none)

  -- `SessionCore.Flush`.
  unfoldable pub session_flush : SessionCore T → ℕ → SessionCore T × Option T
  session_flush c now = if idle c now then (record c { acc = none }, c.acc) else (c, none)

  -- What every reactive window does with what its core emits: it is projected when it is present.
  abbrev pub projected :
      ⦃c : Comparable T⦄ → SourceCell (Option T) → Option T → SourceCell (Option T)
  projected output none = output
  projected output (some v) = set_value output (some v)

-- `TumblingCountWindow`.
pub record TumblingCountWindow {ℓ} (T : Type ℓ) : Type ℓ where
  pub core : TumblingCountCore T
  pub output : SourceCell (Option T)

-- `TumblingTimeWindow`.
pub record TumblingTimeWindow {ℓ} (T : Type ℓ) : Type ℓ where
  pub core : TumblingTimeCore T
  pub output : SourceCell (Option T)

-- `SlidingWindow`.
pub record SlidingWindow {ℓ} (T : Type ℓ) : Type ℓ where
  pub core : SlidingCore T
  pub output : SourceCell (Option T)

-- `SessionWindow`.
pub record SessionWindow {ℓ} (T : Type ℓ) : Type ℓ where
  pub core : SessionCore T
  pub output : SourceCell (Option T)

module _ {ℓ} {T : Type ℓ} ⦃c : Comparable T⦄ where
  -- `TumblingCountWindow.Push`.
  unfoldable pub count_window_push : TumblingCountWindow T → T → TumblingCountWindow T × Option T
  unfolding tumbling_count_push
  count_window_push w v =
      let (core, e) = tumbling_count_push w.core v in
      (record { core = core; output = projected w.output e }, e)

  -- `TumblingTimeWindow.Push`.
  unfoldable pub time_window_push : TumblingTimeWindow T → T → TumblingTimeWindow T
  unfolding tumbling_time_push
  time_window_push w v = record w { core = tumbling_time_push w.core v }

  -- `TumblingTimeWindow.Tick`, with the fuel of the core.
  unfoldable pub time_window_tick :
      ℕ → TumblingTimeWindow T → ℕ → Option (TumblingTimeWindow T × Option T)
  unfolding tumbling_time_tick
  time_window_tick fuel w now = elim (tumbling_time_tick fuel w.core now) [
    | none ↦ none
    | some (core, e) ↦ some (record { core = core; output = projected w.output e }, e)
  ]

  -- `SlidingWindow.Push`.
  unfoldable pub sliding_window_push : SlidingWindow T → T → SlidingWindow T × Option T
  unfolding sliding_push
  sliding_window_push w v =
      let (core, e) = sliding_push w.core v in
      (record { core = core; output = projected w.output e }, e)

  -- `SessionWindow.Push`.
  unfoldable pub session_window_push : SessionWindow T → ℕ → T → SessionWindow T × Option T
  unfolding session_push
  session_window_push w now v =
      let (core, e) = session_push w.core now v in
      (record { core = core; output = projected w.output e }, e)

  -- `SessionWindow.Flush`.
  unfoldable pub session_window_flush : SessionWindow T → ℕ → SessionWindow T × Option T
  unfolding session_flush
  session_window_flush w now =
      let (core, e) = session_flush w.core now in
      (record { core = core; output = projected w.output e }, e)
