-- ===== src/Hlc/Clock.antt =====
-- hlc.go, `Tick` and `Observe`: what the clock promises of the stamps that it returns.
use lazily_go.Base.{◌+◌, ◌<◌, ◌∷◌, ◌≡◌, ◌≤◌, All, List, [], arith, length, subst, true, ℕ}
use lazily_go.Base.Word.{max_i64, zero_i64}
use lazily_go.Hlc.{HlcStamp, Hlc, less, tick, observe, last_stamp, new_hlc}

-- `Tick` returns a stamp of this peer that lies strictly after the clock's last one, as long as the
-- logical counter is not at the largest `int64`, and at or after the wall time given.
tick_increasing :
    (h : Hlc) (now : ℕ)
    → h.last_logical < max_i64
    → (less (last_stamp h) (tick h now).1 ≡ true)
      × (last_stamp (tick h now).0 ≡ (tick h now).1)
      × ((tick h now).1.peer ≡ h.peer)
      × (now ≤ (tick h now).1.wall_time)
unfolding tick less
tick_increasing h now bound = ground arith

-- At the largest `int64` the counter wraps: with a wall time that does not advance, the stamp lies
-- strictly before the clock's last one.
pub tick_wraps :
    (h : Hlc) (now : ℕ)
    → h.last_logical ≡ max_i64
    → now ≤ h.last_wall
    → less (tick h now).1 (last_stamp h) ≡ true
unfolding tick less
tick_wraps h now full stale = ground arith

-- `Observe` returns a stamp that lies strictly after the remote one and after the clock's last one,
-- and carries the largest of the three wall times, as long as neither logical counter is at the
-- largest `int64`.
observe_increasing :
    (h : Hlc) (remote : HlcStamp) (now : ℕ)
    → h.last_logical < max_i64
    → remote.logical < max_i64
    → (less remote (observe h remote now).1 ≡ true)
      × (less (last_stamp h) (observe h remote now).1 ≡ true)
      × (last_stamp (observe h remote now).0 ≡ (observe h remote now).1)
      × (now ≤ (observe h remote now).1.wall_time)
unfolding observe less
observe_increasing h remote now b c = ground arith

-- The events of a clock's life.
pub data Event : Type 0 where
  local : ℕ → Event
  received : HlcStamp → ℕ → Event

pub step : Hlc → Event → Hlc × HlcStamp
step h (local now) = tick h now
step h (received remote now) = observe h remote now

-- The stamps that the events produce, in order.
pub stamps : Hlc → List Event → List HlcStamp
stamps h [] = []
stamps h (e ∷ es) = (step h e).1 ∷ stamps (step h e).0 es

-- Every remote stamp has a logical counter of at most `n`.
abbrev pub Within : ℕ → Event → Type 0
Within n (local now) = Unit {0}
Within n (received remote now) = remote.logical ≤ n

-- Each stamp lies strictly after the one before it.
abbrev pub Rising : HlcStamp → List HlcStamp → Type 0
Rising s [] = Unit {0}
Rising s (t ∷ ts) = (less s t ≡ true) × Rising t ts

step_grows :
    (n : ℕ) (h : Hlc) (e : Event)
    → zero_i64 ≤ n
    → h.last_logical ≤ n
    → Within n e
    → n < max_i64
    → ((step h e).0.last_logical ≤ n + 1)
      × (less (last_stamp h) (step h e).1 ≡ true)
      × (last_stamp (step h e).0 ≡ (step h e).1)
unfolding step tick observe less
step_grows n h (local now) z b w c = ground arith
step_grows n h (received remote now) z b w c = ground arith

Within-weaken : (n : ℕ) (e : Event) → Within n e → Within (n + 1) e
Within-weaken n (local now) w = tt
Within-weaken n (received remote now) w = omega arith

All-Within-weaken : (n : ℕ) (es : List Event) → All (Within n) es → All (Within (n + 1)) es
All-Within-weaken n [] ws = tt
All-Within-weaken n (e ∷ es) ws = (Within-weaken n e ws.0, All-Within-weaken n es ws.1)

stamps-Rising :
    (n : ℕ) (h : Hlc) (es : List Event)
    → zero_i64 ≤ n
    → h.last_logical ≤ n
    → All (Within n) es
    → n + length es ≤ max_i64
    → Rising (last_stamp h) (stamps h es)
unfolding stamps
stamps-Rising n h [] z b ws c = tt
stamps-Rising n h (e ∷ es) z b ws c =
    let (grown, before, last) = step_grows n h e z b ws.0 (omega arith) in
    (
      before,
      subst (λ s. Rising s (stamps (step h e).0 es)) last
          (stamps-Rising (n + 1) (step h e).0 es (omega arith) grown (All-Within-weaken n es ws.1)
            (omega arith)),
    )

-- From a new clock, every sequence of local and remote events yields strictly increasing stamps, if
-- the remote logical counters are at most `n`, `n` is not negative, and `n` plus the number of
-- events does not pass the largest `int64`.
pub stamps-new_hlc-Rising :
    (n peer : ℕ) (es : List Event)
    → zero_i64 ≤ n
    → All (Within n) es
    → n + length es ≤ max_i64
    → Rising (last_stamp (new_hlc peer)) (stamps (new_hlc peer) es)
stamps-new_hlc-Rising n peer es z ws c =
    stamps-Rising n (new_hlc peer) es z (unfold new_hlc in z) ws c
