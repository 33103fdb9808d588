-- ===== src/Coordination/Lease.antt =====
-- coordination.go, `LeaseCore`: sequences of calls, and the fencing tokens that they grant.
use lazily_go.Base.{
  ◌+◌, ◌<◌, ◌||◌, ◌∙◌, ◌∷◌, ◌≡◌, ◌≢◌, ◌≤◌, All, All-map, Comparable, List, Option, [], ap, arith,
  false, if_elim, length, none, not, refl, some, some_inj, sym, true, ℕ, ℕ_comparable,
  bool_comparable, option_comparable,
}
use lazily_go.Coordination.{
  LeaseCore, acquire, lease_tick, release, renew, held_by, is_expired, present, is_held, LockCell,
  lock_acquire, validate,
}
use lazily_go.Base.Word.{max_uint64, add_u64}

-- The calls on a lease.
pub data LeaseOp {ℓ} (P : Type ℓ) : Type ℓ where
  acquires renews : P → ℕ → ℕ → LeaseOp P
  releases : P → LeaseOp P
  ticks : ℕ → LeaseOp P

abbrev granted_to {ℓ} : {P : Type ℓ} → P → Option ℕ → Option (P × ℕ)
granted_to peer none = none
granted_to peer (some fence) = some (peer, fence)

abbrev cons_grant {ℓ} : {P : Type ℓ} → Option (P × ℕ) → List (P × ℕ) → List (P × ℕ)
cons_grant none gs = gs
cons_grant (some g) gs = g ∷ gs

abbrev Each {ℓ κ} : {A : Type ℓ} → (A → Type κ) → Option A → Type κ
Each Q none = Unit
Each Q (some a) = Q a

All-cons_grant {ℓ κ} :
    {P : Type ℓ} (Q : P × ℕ → Type κ) (got : Option (P × ℕ)) (gs : List (P × ℕ))
    → Each Q got
    → All Q gs
    → All Q (cons_grant got gs)
All-cons_grant Q none gs h all = all
All-cons_grant Q (some g) gs h all = (h, all)

-- Tokens never decrease, and equal ones belong to one peer.
abbrev pub Fenced {ℓ} : {P : Type ℓ} → List (P × ℕ) → Type ℓ
Fenced [] = Unit
Fenced ((p, f) ∷ gs) = All (λ (g : _ × ℕ). (f ≤ g.1) × (f ≡ g.1 → p ≡ g.0)) gs × Fenced gs

module _ {ℓ} {P : Type ℓ} ⦃e : Comparable P⦄ where
  -- The lease after a call, and the token that the call granted, with its peer.
  pub lease_step : LeaseCore P → LeaseOp P → LeaseCore P × Option (P × ℕ)
  lease_step c (acquires peer now ttl) =
      let (c', fence) = acquire c peer now ttl in (c', granted_to peer fence)
  lease_step c (renews peer now ttl) = ((renew c peer now ttl).0, none)
  lease_step c (releases peer) = (release c peer, none)
  lease_step c (ticks now) = ((lease_tick c now).0, none)

  -- The tokens that a sequence of calls grants, in order.
  pub grants : LeaseCore P → List (LeaseOp P) → List (P × ℕ)
  grants c [] = []
  grants c (op ∷ ops) = cons_grant (lease_step c op).1 (grants (lease_step c op).0 ops)

  -- What a call does to the token and the holder.
  abbrev StepsTo : LeaseCore P → LeaseCore P → Type ℓ
  StepsTo c c' =
      (c.fence ≤ c'.fence)
      × (c'.fence ≤ c.fence + 1)
      × ((q : P) → c'.fence ≡ c.fence → c'.holder ≡ some q → c.holder ≡ some q)

  lease_step-StepsTo :
      (c : LeaseCore P) (op : LeaseOp P) → c.fence < max_uint64 → StepsTo c (lease_step c op).0
  unfolding lease_step acquire renew release lease_tick
  lease_step-StepsTo c (acquires peer now ttl) b =
      (ground arith, ground arith, λ q same held. ground (arith))
  lease_step-StepsTo c (renews peer now ttl) b =
      (ground arith, ground arith, λ q same held. ground (arith))
  lease_step-StepsTo c (releases peer) b =
      (ground arith, ground arith, λ q same held. ground (arith))
  lease_step-StepsTo c (ticks now) b = (ground arith, ground arith, λ q same held. ground (arith))

  -- A granted token is the lease's current one, and its peer holds the lease.
  abbrev Granted : LeaseCore P → Option (P × ℕ) → Type ℓ
  Granted c' none = Unit
  Granted c' (some (q, f)) = (c'.fence ≡ f) × (c'.holder ≡ some q)

  lease_step-Granted :
      (c : LeaseCore P) (op : LeaseOp P) → Granted (lease_step c op).0 (lease_step c op).1
  unfolding lease_step acquire
  lease_step-Granted c (acquires peer now ttl) =
      if_elim Ok (not (present c.holder) || is_expired c now) (λ _. (refl, refl))
        (λ _.
          if_elim Ok (held_by c.holder peer) (λ held. (refl, held_some c.holder peer held))
            (λ _. tt))
    where
      Ok : LeaseCore P × Option ℕ → Type ℓ
      Ok r = Granted r.0 (granted_to peer r.1)

      held_some : (h : Option P) (q : P) → held_by h q ≡ true → h ≡ some q
      held_some none q held = cc
      held_some (some x) q held = ap some ((e.eq_iff x q).0 held)
  lease_step-Granted c (renews peer now ttl) = tt
  lease_step-Granted c (releases peer) = tt
  lease_step-Granted c (ticks now) = tt

  -- The tokens that come after a state: none is older, and the state's own token stays with its holder.
  abbrev Later : LeaseCore P → P × ℕ → Type ℓ
  Later c (q, g) = (c.fence ≤ g) × (c.fence ≡ g → c.holder ≡ some q)

  Later-step : (c c' : LeaseCore P) (g : P × ℕ) → StepsTo c c' → Later c' g → Later c g
  Later-step c c' (q, g) (up, _, same) (le, own) =
      (omega arith, λ eq_g. same q (omega arith) (own (omega arith)))

  Granted-Later :
      (c c' : LeaseCore P) (got : Option (P × ℕ))
      → StepsTo c c'
      → Granted c' got
      → Each (Later c) got
  Granted-Later c c' none to granted = tt
  Granted-Later c c' (some (q, f)) to (now, held) =
      Later-step c c' (q, f) to (omega arith, λ _. held)

  grants-Later :
      (c : LeaseCore P) (ops : List (LeaseOp P))
      → c.fence + length ops ≤ max_uint64
      → All (Later c) (grants c ops)
  unfolding grants
  grants-Later c [] b = tt
  grants-Later c (op ∷ ops) b =
      let (c', got) = lease_step c op in
      let to = lease_step-StepsTo c op (omega arith) in
      All-cons_grant (Later c) got (grants c' ops)
        (Granted-Later c c' got to (lease_step-Granted c op))
        (All-map (grants c' ops) (λ g. Later-step c c' g to)
          (grants-Later c' ops (omega (arith, to.1))))

  Fenced-cons_grant :
      (c' : LeaseCore P) (got : Option (P × ℕ)) (gs : List (P × ℕ))
      → Granted c' got
      → All (Later c') gs
      → Fenced gs
      → Fenced (cons_grant got gs)
  Fenced-cons_grant c' none gs granted later fenced = fenced
  Fenced-cons_grant c' (some (p, f)) gs (now, held) later fenced = (
    All-map gs (λ g l. (omega arith, λ same. some_inj (sym held ∙ l.1 (omega arith)))) later,
    fenced,
  )

  -- Over any sequence of acquires, renewals, releases and ticks the granted fencing tokens never
  -- decrease, and a token is granted to one peer only: two peers never hold the same token. The
  -- token counter plus the number of calls stays within `uint64`.
  pub grants-Fenced :
      (c : LeaseCore P) (ops : List (LeaseOp P))
      → c.fence + length ops ≤ max_uint64
      → Fenced (grants c ops)
  unfolding grants
  grants-Fenced c [] b = tt
  grants-Fenced c (op ∷ ops) b =
      let (c', got) = lease_step c op in
      let to = lease_step-StepsTo c op (omega arith) in
      Fenced-cons_grant c' got (grants c' ops) (lease_step-Granted c op)
        (grants-Later c' ops (omega (arith, to.1))) (grants-Fenced c' ops (omega (arith, to.1)))

  -- Calls of other peers than the holder, and ticks, all before the deadline.
  abbrev pub Foreign : P → ℕ → List (LeaseOp P) → Type ℓ
  Foreign p deadline [] = Unit
  Foreign p deadline (acquires q now ttl ∷ ops) =
      (p ≢ q) × (now < deadline) × Foreign p deadline ops
  Foreign p deadline (renews q now ttl ∷ ops) = (p ≢ q) × (now < deadline) × Foreign p deadline ops
  Foreign p deadline (releases q ∷ ops) = (p ≢ q) × Foreign p deadline ops
  Foreign p deadline (ticks now ∷ ops) = (now < deadline) × Foreign p deadline ops

  pub lease_run : LeaseCore P → List (LeaseOp P) → LeaseCore P
  unfolding lease_step
  lease_run c [] = c
  lease_run c (op ∷ ops) = lease_run (lease_step c op).0 ops

  outside_step :
      (c : LeaseCore P) (p : P) (op : LeaseOp P)
      → c.holder ≡ some p
      → Foreign p c.expiry (op ∷ [])
      → lease_step c op ≡ (c, none)
  unfolding lease_step acquire renew release lease_tick
  outside_step c p (acquires q now ttl) h f = ground (arith, e.eq_iff p q, f.0, f.1)
  outside_step c p (renews q now ttl) h f = ground (arith, e.eq_iff p q, f.0, f.1)
  outside_step c p (releases q) h f = ground (arith, e.eq_iff p q, f.0)
  outside_step c p (ticks now) h f = ground (arith, f.0)

  outside_head :
      (p : P) (deadline : ℕ) (op : LeaseOp P) (ops : List (LeaseOp P))
      → Foreign p deadline (op ∷ ops)
      → Foreign p deadline (op ∷ []) × Foreign p deadline ops
  outside_head p deadline (acquires q now ttl) ops f = ((f.0, f.1, tt), f.2)
  outside_head p deadline (renews q now ttl) ops f = ((f.0, f.1, tt), f.2)
  outside_head p deadline (releases q) ops f = ((f.0, tt), f.1)
  outside_head p deadline (ticks now) ops f = ((f.0, tt), f.1)

  outside_run :
      (c : LeaseCore P) (p : P) (ops : List (LeaseOp P))
      → c.holder ≡ some p
      → Foreign p c.expiry ops
      → (lease_run c ops ≡ c) × (grants c ops ≡ [])
  unfolding lease_run grants
  outside_run c p [] h f = (refl, refl)
  outside_run c p (op ∷ ops) h f =
      let (here, later) = outside_head p c.expiry op ops f in
      let stays = outside_step c p op h here in
      let (run, none_granted) = outside_run c p ops h later in
      (
        ap (λ (x : LeaseCore P × Option (P × ℕ)). lease_run x.0 ops) stays ∙ run,
        ap (λ (x : LeaseCore P × Option (P × ℕ)). cons_grant x.1 (grants x.0 ops)) stays
            ∙ none_granted,
      )

  -- While a lease is held, and before its deadline, other peers cannot take it: whatever they acquire,
  -- renew and release, and however the clock is ticked, no token is granted and the lease stays as it
  -- was. The holder can then acquire or renew it: it keeps its token, and the deadline becomes the time
  -- of the call plus its time to live, on `uint64`.
  pub acquire_exclusive :
      (c : LeaseCore P) (p : P) (ops : List (LeaseOp P)) (now ttl : ℕ)
      → c.holder ≡ some p
      → Foreign p c.expiry ops
      → now < c.expiry
      → (grants c ops ≡ [])
        × (lease_run c ops ≡ c)
        × (is_held (lease_run c ops) now ≡ true)
        × (acquire (lease_run c ops) p now ttl
            ≡ (record c { expiry = add_u64 now ttl }, some c.fence))
        × (renew (lease_run c ops) p now ttl ≡ (record c { expiry = add_u64 now ttl }, true))
  unfolding acquire renew is_held
  acquire_exclusive c p ops now ttl h f live =
      let (run, none_granted) = outside_run c p ops h f in
      (
        none_granted,
        run,
        rw run (ground arith),
        rw run (ground (arith, e.eq_iff p p)),
        rw run (ground (arith, e.eq_iff p p)),
      )

  -- Once the deadline has passed, the next peer is granted a new token, so that a lock validates no
  -- older one.
  acquire_expired :
      (c : LockCell P) (p q : P) (now ttl : ℕ)
      → c.core.holder ≡ some p
      → c.core.expiry ≤ now
      → c.core.fence < max_uint64
      → ((lock_acquire c q now ttl).1 ≡ some (c.core.fence + 1))
        × ((lock_acquire c q now ttl).0.core.holder ≡ some q)
        × ((f : ℕ) → f ≤ c.core.fence → validate (lock_acquire c q now ttl).0 f ≡ false)
  unfolding lock_acquire validate
  acquire_expired c p q now ttl h over b = (ground arith, ground arith, λ f le. ground arith)
