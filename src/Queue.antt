-- ===== src/Queue.antt =====
-- queue.go: `VecDequeStorage`, and `QueueCell` over it. A reader is a `Computed`: the value that it has
-- cached, if any. A head that is not there is `none`. Lengths are `int`s that are not negative.
pub mod Readers
pub mod Fifo
mod Tests
use lazily_go.Base.{
  ◌&&◌, ◌+◌, ◌++◌, ◌-◌, ◌==◌, if◌then◌else◌, ◌∷◌, Bool, List, Option, [], bool_eq, false, leb,
  length, ltb, none, not, some, true, ℕ, ℕ_comparable, bool_comparable, option_comparable,
}
use lazily_go.Cell.{SourceCell, new_source, set_value}

pub data QueuePushError : Type 0 where
  push_ok push_full push_closed : QueuePushError

pub data QueuePopError : Type 0 where
  pop_ok pop_empty pop_closed : QueuePopError

-- The capacity is 0 for an unbounded storage.
pub record VecDequeStorage {ℓ} (T : Type ℓ) : Type ℓ where
  pub elements : List T
  pub capacity : ℕ
  pub closed : Bool

module _ {ℓ} {T : Type ℓ} where
  unfoldable pub storage_push : VecDequeStorage T → T → VecDequeStorage T × QueuePushError
  storage_push s value =
      if s.closed
      then (s, push_closed)
      else if ltb 0 s.capacity && leb s.capacity (length s.elements)
      then (s, push_full)
      else (record s { elements = s.elements ++ value ∷ [] }, push_ok)

  -- The elements are those of the storage.
  pub pop_elements : VecDequeStorage T → List T → VecDequeStorage T × Option T × QueuePopError
  pop_elements s [] = (s, none, if s.closed then pop_closed else pop_empty)
  pop_elements s (v ∷ rest) = (record s { elements = rest }, some v, pop_ok)

  -- `VecDequeStorage.TryPop`; the zero value of the error cases is `none`.
  unfoldable pub storage_pop : VecDequeStorage T → VecDequeStorage T × Option T × QueuePopError
  unfolding pop_elements
  storage_pop s = pop_elements s s.elements

  abbrev pub first : List T → Option T
  first [] = none
  first (v ∷ rest) = some v

  -- `VecDequeStorage.Peek`.
  abbrev pub peek : VecDequeStorage T → Option T
  peek s = first s.elements

-- `QueueCell`; `bounded` and `capacity` are mirrored from the storage.
pub record QueueCell {ℓ} (T : Type ℓ) : Type ℓ where
  pub storage : VecDequeStorage T
  pub head : Option (Option T)
  pub len : Option ℕ
  pub empty : Option Bool
  pub full : Option Bool
  pub closed : SourceCell Bool
  pub bounded : Bool
  pub capacity : ℕ

abbrev pub cleared_if {ℓ} : {A : Type ℓ} → Bool → Option A → Option A
cleared_if changed cached = if changed then none else cached

abbrev pub push_is_ok : QueuePushError → Bool
push_is_ok push_ok = true
push_is_ok push_full = false
push_is_ok push_closed = false

abbrev pub pop_is_ok : QueuePopError → Bool
pop_is_ok pop_ok = true
pop_is_ok pop_empty = false
pop_is_ok pop_closed = false

-- What `Get` returns, and what the reader then holds.
abbrev pub cached_or {ℓ} : {A : Type ℓ} → Option A → A → A
cached_or none a = a
cached_or (some x) a = x

module _ {ℓ} {T : Type ℓ} where
  -- `NewQueueCellWithStorage`, for this storage.
  unfoldable pub new_queue_cell : VecDequeStorage T → QueueCell T
  unfolding new_source
  new_queue_cell storage = record {
    storage = storage;
    head = none;
    len = none;
    empty = none;
    full = none;
    closed = new_source storage.closed;
    bounded = ltb 0 storage.capacity;
    capacity = storage.capacity;
  }

  unfoldable pub invalidate_readers : QueueCell T → ℕ → ℕ → Bool → QueueCell T
  invalidate_readers q before after head_changed = record q {
    len = none;
    empty = cleared_if (not (bool_eq (before == 0) (after == 0))) q.empty;
    full =
        cleared_if (q.bounded && not (bool_eq (leb q.capacity before) (leb q.capacity after)))
          q.full;
    head = cleared_if head_changed q.head;
  }

  unfoldable pub try_push : QueueCell T → T → QueueCell T × QueuePushError
  unfolding storage_push invalidate_readers
  try_push q value =
      let before = length q.storage.elements in
      let (s, err) = storage_push q.storage value in
      let q' : QueueCell T = record q { storage = s } in
      (
        (if push_is_ok err then invalidate_readers q' before (before + 1) (before == 0) else q'),
        err,
      )

  unfoldable pub try_pop : QueueCell T → QueueCell T × Option T × QueuePopError
  unfolding storage_pop invalidate_readers
  try_pop q =
      let before = length q.storage.elements in
      let (s, v, err) = storage_pop q.storage in
      let q' : QueueCell T = record q { storage = s } in
      ((if pop_is_ok err then invalidate_readers q' before (before - 1) true else q'), v, err)

  unfoldable pub close : QueueCell T → QueueCell T
  unfolding set_value
  close q = if q.storage.closed then q else record q {
    storage = record (q.storage) { closed = true };
    closed = set_value q.closed true;
  }

  unfoldable pub read_head : QueueCell T → QueueCell T × Option T
  read_head q = let v = cached_or q.head (peek q.storage) in (record q { head = some v }, v)

  unfoldable pub read_len : QueueCell T → QueueCell T × ℕ
  read_len q = let v = cached_or q.len (length q.storage.elements) in (record q { len = some v }, v)

  unfoldable pub read_empty : QueueCell T → QueueCell T × Bool
  read_empty q =
      let v = cached_or q.empty (length q.storage.elements == 0) in (record q { empty = some v }, v)

  unfoldable pub read_full : QueueCell T → QueueCell T × Bool
  read_full q =
      let v = cached_or q.full (q.bounded && leb q.capacity (length q.storage.elements)) in
      (record q { full = some v }, v)
