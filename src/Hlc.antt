-- ===== src/Hlc.antt =====
-- hlc.go: the hybrid logical clock. `wall_time`, `logical` and `peer` are `int64`, in the
-- representation of Base/Word. Time is an argument of every call, as in the code.
pub mod Order
pub mod Clock
mod Tests
use lazily_go.Base.{◌&&◌, ◌==◌, if◌then◌else◌, Bool, Ordering, false, leb, ltb, not, true, ℕ}
use lazily_go.Base.Word.{inc_i64, zero_i64}

-- `HlcStamp`.
pub record HlcStamp : Type 0 where
  pub wall_time : ℕ
  pub logical : ℕ
  pub peer : ℕ

-- The results -1, 0 and +1 of `Compare` are `lt`, `eq` and `gt`.
pub compare : HlcStamp → HlcStamp → Ordering
compare s other =
    if not (s.wall_time == other.wall_time)
    then if ltb s.wall_time other.wall_time then Ordering.lt else Ordering.gt
    else if not (s.logical == other.logical)
    then if ltb s.logical other.logical then Ordering.lt else Ordering.gt
    else if not (s.peer == other.peer)
    then if ltb s.peer other.peer then Ordering.lt else Ordering.gt
    else Ordering.eq

abbrev is_lt : Ordering → Bool
is_lt Ordering.lt = true
is_lt _ = false

abbrev is_gt : Ordering → Bool
is_gt Ordering.gt = true
is_gt _ = false

unfoldable pub less : HlcStamp → HlcStamp → Bool
unfolding compare
less s other = is_lt (compare s other)

unfoldable pub less_equal : HlcStamp → HlcStamp → Bool
unfolding compare
less_equal s other = not (is_gt (compare s other))

unfoldable pub greater : HlcStamp → HlcStamp → Bool
unfolding compare
greater s other = is_gt (compare s other)

unfoldable pub greater_equal : HlcStamp → HlcStamp → Bool
unfolding compare
greater_equal s other = not (is_lt (compare s other))

unfoldable pub min_stamp : HlcStamp → HlcStamp → HlcStamp
unfolding less_equal
min_stamp a b = if less_equal a b then a else b

unfoldable pub max_stamp : HlcStamp → HlcStamp → HlcStamp
unfolding greater_equal
max_stamp a b = if greater_equal a b then a else b

-- `Hlc`.
pub record Hlc : Type 0 where
  pub peer : ℕ
  pub last_wall : ℕ
  pub last_logical : ℕ

-- `NewHlc`: the zero value of the two counters is the `int64` 0.
unfoldable pub new_hlc : ℕ → Hlc
new_hlc peer = record { peer = peer; last_wall = zero_i64; last_logical = zero_i64 }

-- The stamp that `Tick` and `Observe` return: the clock's own counters and peer.
abbrev pub last_stamp : Hlc → HlcStamp
last_stamp h = record { wall_time = h.last_wall; logical = h.last_logical; peer = h.peer }

unfoldable pub tick : Hlc → ℕ → Hlc × HlcStamp
tick h now_micros =
    let h' : Hlc =
      if ltb h.last_wall now_micros
      then record h { last_wall = now_micros; last_logical = zero_i64 }
      else record h { last_logical = inc_i64 h.last_logical } in
    (h', last_stamp h')

abbrev max2 : ℕ → ℕ → ℕ
max2 a b = if leb b a then a else b

abbrev max3 : ℕ → ℕ → ℕ → ℕ
max3 a b c = max2 (max2 a b) c

-- The `switch` of `Observe`.
abbrev observed_logical : Hlc → HlcStamp → ℕ → ℕ
observed_logical h remote wall =
    if (wall == h.last_wall) && (wall == remote.wall_time)
    then inc_i64 (max2 h.last_logical remote.logical)
    else if wall == h.last_wall
    then inc_i64 h.last_logical
    else if wall == remote.wall_time
    then inc_i64 remote.logical
    else zero_i64

unfoldable pub observe : Hlc → HlcStamp → ℕ → Hlc × HlcStamp
observe h remote now_micros =
    let wall = max3 h.last_wall remote.wall_time now_micros in
    let h' : Hlc = record h { last_wall = wall; last_logical = observed_logical h remote wall } in
    (h', last_stamp h')
