-- ===== src/Resilience/Breaker.antt =====
-- resilience.go, `CircuitBreakerCore`: the sliding window and the three states.
use lazily_go.Base.{
  ◌++◌, ◌-◌, ◌<◌, ◌↔◌, ◌∙◌, ◌∷◌, ◌≡◌, ◌≤◌, Bool, Bool-cases, List, [], ap, arith, drop, false,
  if_elim, inl, inr, leb, length, length-append, ltb, max, refl, suc, sym, true, ℕ,
}
use lazily_go.Resilience.{
  BreakerState, CircuitBreakerCore, allow, closed, failures, half_open, new_circuit_breaker_core,
  open_state, record_outcome, trim, allow_in, record_in, trip,
}

-- The calls on a breaker.
pub data BreakerOp : Type 0 where
  allows : ℕ → BreakerOp
  records : Bool → ℕ → BreakerOp

pub breaker_step : CircuitBreakerCore → BreakerOp → CircuitBreakerCore
breaker_step c (allows now) = (allow c now).0
breaker_step c (records success now) = record_outcome c success now

pub breaker_run : CircuitBreakerCore → List BreakerOp → CircuitBreakerCore
breaker_run c [] = c
breaker_run c (op ∷ ops) = breaker_run (breaker_step c op) ops

-- What a recorded outcome adds to the outcomes since the breaker last closed.
abbrev noted : BreakerState → Bool → List Bool → List Bool
noted closed success h = h ++ success ∷ []
noted half_open true h = []
noted half_open false h = h
noted open_state success h = h

-- The outcomes recorded by a closed breaker since it last closed.
pub history : CircuitBreakerCore → List Bool → List BreakerOp → List Bool
unfolding breaker_step
history c h [] = h
history c h (allows now ∷ ops) = history (breaker_step c (allows now)) h ops
history c h (records success now ∷ ops) =
    history (breaker_step c (records success now)) (noted c.state success h) ops

-- The last outcomes of a list, as many as the window holds.
abbrev pub last_of : ℕ → List Bool → List Bool
last_of w xs = drop (length xs - w) xs

-- The breaker is set up as it was asked to be, remembers the last outcomes of this history, and has
-- fewer failures among them than the threshold while it is closed.
pub record IsBreaker (window threshold timeout : ℕ) (h : List Bool) (c : CircuitBreakerCore)
    : Type 0 where
  pub window_is : c.window ≡ max 1 window
  pub threshold_is : c.failure_threshold ≡ max 1 threshold
  pub timeout_is : c.reset_timeout ≡ timeout
  pub remembers : c.outcomes ≡ last_of (max 1 window) h
  pub below : c.state ≡ closed → failures c.outcomes < max 1 threshold

trim-last_of : (w : ℕ) (xs : List Bool) → trim w xs ≡ last_of w xs
unfolding trim
trim-last_of w [] = let none_over : 0 - w ≡ 0 = omega arith in rw none_over refl
trim-last_of w (x ∷ xs) = elim (Bool-cases (ltb w (length (x ∷ xs)))) [
  | inl over ↦
      let one_more : suc (length xs) - w ≡ suc (length xs - w) = ground arith in
      rw (over, one_more) (trim-last_of w xs)
  | inr fits ↦ let all : suc (length xs) - w ≡ 0 = ground arith in rw (fits, all) refl
]

trim-trim :
    (w : ℕ) (xs : List Bool) (s : Bool) → trim w (trim w xs ++ s ∷ []) ≡ trim w (xs ++ s ∷ [])
unfolding trim
trim-trim w [] s = refl
trim-trim w (x ∷ xs) s = elim (Bool-cases (ltb w (length (x ∷ xs)))) [
  | inl over ↦
      let longer : ltb w (length (x ∷ xs ++ s ∷ [])) ≡ true =
        ground (arith, length-append xs (s ∷ [])) in
      rw (over, longer) (trim-trim w xs s)
  | inr fits ↦ rw fits refl
]

last_of-next :
    (w : ℕ) (h : List Bool) (s : Bool) → trim w (last_of w h ++ s ∷ []) ≡ last_of w (h ++ s ∷ [])
last_of-next w h s =
    ap (λ xs. trim w (xs ++ s ∷ [])) (sym (trim-last_of w h))
    ∙ trim-trim w h s
    ∙ trim-last_of w (h ++ s ∷ [])

module _ (window threshold timeout : ℕ) where
  trip-IsBreaker :
      (h : List Bool) (c : CircuitBreakerCore) (now : ℕ)
      → c.window ≡ max 1 window
      → c.failure_threshold ≡ max 1 threshold
      → c.reset_timeout ≡ timeout
      → c.outcomes ≡ last_of (max 1 window) h
      → IsBreaker window threshold timeout h (trip c now)
  unfolding trip
  trip-IsBreaker h c now w t r o =
      elim (Bool-cases (leb c.failure_threshold (failures c.outcomes))) [
        | inl many ↦
            rw (many, trip)
              record {
                window_is = w;
                threshold_is = t;
                timeout_is = r;
                remembers = o;
                below = λ no. absurd (cc no);
              }
        | inr few ↦
            rw (few, trip)
              record {
                window_is = w;
                threshold_is = t;
                timeout_is = r;
                remembers = o;
                below = λ _. ground arith;
              }
      ]

  record_in-IsBreaker :
      (s : BreakerState) (h : List Bool) (c : CircuitBreakerCore) (success : Bool) (now : ℕ)
      → c.state ≡ s
      → IsBreaker window threshold timeout h c
      → IsBreaker window threshold timeout (noted s success h) (record_in s c success now)
  unfolding record_in
  record_in-IsBreaker closed h c success now e v =
      trip-IsBreaker (h ++ success ∷ [])
        (record c { outcomes = trim c.window (c.outcomes ++ success ∷ []) }) now v.window_is
        v.threshold_is v.timeout_is
        (rw (v.window_is, v.remembers) (last_of-next (max 1 window) h success))
  record_in-IsBreaker open_state h c success now e v = v
  record_in-IsBreaker half_open h c true now e v = record {
    window_is = v.window_is;
    threshold_is = v.threshold_is;
    timeout_is = v.timeout_is;
    remembers = let none_over : 0 - max 1 window ≡ 0 = omega arith in rw none_over refl;
    below = λ _. omega arith;
  }
  record_in-IsBreaker half_open h c false now e v = record {
    window_is = v.window_is;
    threshold_is = v.threshold_is;
    timeout_is = v.timeout_is;
    remembers = v.remembers;
    below = λ no. absurd (cc no);
  }

  allow_in-IsBreaker :
      (s : BreakerState) (h : List Bool) (c : CircuitBreakerCore) (now : ℕ)
      → IsBreaker window threshold timeout h c
      → IsBreaker window threshold timeout h (allow_in s c now).0
  unfolding allow_in
  allow_in-IsBreaker closed h c now v = v
  allow_in-IsBreaker open_state h c now v =
      if_elim (λ (x : CircuitBreakerCore × Bool). IsBreaker window threshold timeout h x.0)
        (leb c.open_until now)
        (λ _. record {
          window_is = v.window_is;
          threshold_is = v.threshold_is;
          timeout_is = v.timeout_is;
          remembers = v.remembers;
          below = λ no. absurd (cc no);
        })
        (λ _. v)
  allow_in-IsBreaker half_open h c now v = v

  breaker_run-IsBreaker :
      (h : List Bool) (c : CircuitBreakerCore) (ops : List BreakerOp)
      → IsBreaker window threshold timeout h c
      → IsBreaker window threshold timeout (history c h ops) (breaker_run c ops)
  unfolding breaker_run breaker_step history allow record_outcome
  breaker_run-IsBreaker h c [] v = v
  breaker_run-IsBreaker h c (allows now ∷ ops) v =
      breaker_run-IsBreaker h (allow c now).0 ops (allow_in-IsBreaker c.state h c now v)
  breaker_run-IsBreaker h c (records success now ∷ ops) v =
      breaker_run-IsBreaker (noted c.state success h) (record_outcome c success now) ops
        (record_in-IsBreaker c.state h c success now refl v)

  new-IsBreaker :
      IsBreaker window threshold timeout [] (new_circuit_breaker_core window threshold timeout)
  unfolding new_circuit_breaker_core
  new-IsBreaker = record {
    window_is = ground arith;
    threshold_is = ground arith;
    timeout_is = refl;
    remembers = let none_over : 0 - max 1 window ≡ 0 = omega arith in rw none_over refl;
    below = λ _. omega arith;
  }

opens :
    (window threshold timeout : ℕ) (h : List Bool) (c : CircuitBreakerCore) (success : Bool)
    (now : ℕ)
    → IsBreaker window threshold timeout h c
    → c.state ≡ closed
    → (allow c now ≡ (c, true))
      × ((record_outcome c success now).state ≡ open_state
          ↔ max 1 threshold ≤ failures (last_of (max 1 window) (h ++ success ∷ [])))
unfolding allow record_outcome allow_in record_in trip
opens window threshold timeout h c success now v on =
    let kept : trim c.window (c.outcomes ++ success ∷ [])
        ≡ last_of (max 1 window) (h ++ success ∷ []) =
      rw (v.window_is, v.remembers) (last_of-next (max 1 window) h success) in
    rw (← kept, ← v.threshold_is) (ground arith)

-- Whatever calls a new breaker has seen, its window and threshold are those it was made with, at least
-- 1, and it remembers the last outcomes since it closed, as many as the window holds. While it is
-- closed it lets calls through, and fewer of these outcomes are failures than the threshold; the next
-- recorded outcome opens it exactly if the failures among the last outcomes, that one included, reach
-- the threshold.
pub breaker_run-new-IsBreaker :
    (window threshold timeout : ℕ) (ops : List BreakerOp) (success : Bool) (now : ℕ)
    → let b = new_circuit_breaker_core window threshold timeout in
      let c = breaker_run b ops in
      let h = history b [] ops in
      IsBreaker window threshold timeout h c
      × (c.state ≡ closed
          → (allow c now ≡ (c, true))
            × ((record_outcome c success now).state ≡ open_state
                ↔ max 1 threshold ≤ failures (last_of (max 1 window) (h ++ success ∷ []))))
breaker_run-new-IsBreaker window threshold timeout ops success now =
    let b = new_circuit_breaker_core window threshold timeout in
    let v =
      breaker_run-IsBreaker window threshold timeout [] b ops
        (new-IsBreaker window threshold timeout) in
    (
      v,
      λ on. opens window threshold timeout (history b [] ops) (breaker_run b ops) success now v on,
    )
