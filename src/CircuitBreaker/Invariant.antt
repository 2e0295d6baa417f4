-- ===== src/CircuitBreaker/Invariant.antt =====
-- What holds of a breaker in every state it can be in, and the two ways to use it.
use k2_market_data_platform.Base.{
  ℕ, suc, ◌≤◌, ◌<◌, ◌≡◌, refl, Bool-cases, leb, get_or, inl, inr, Option, none, some, List, [], ◌∷◌,
  arith,
}
use k2_market_data_platform.CircuitBreaker.{
  Settings, CircuitBreaker, breaker, CircuitBreakerState, closed, opened, half_open, Call, attempt,
  settle_call, should_attempt_reset, transition_to, on_success, on_failure, admit, call, enter,
  exit, reset, Event, called, entered, exited, reset_by_hand, step, steps,
}

-- Each state knows what its counters mean.
abbrev pub Consistent : Settings → CircuitBreaker → Type 0
Consistent s b = elim b.state [
  | closed ↦ (b.failure_count < s.failure_threshold) × (b.success_count ≡ 0)
  | opened ↦ (b.success_count ≡ 0) × ((t : ℕ) × (b.last_failure_time ≡ some t))
  | half_open ↦ (b.success_count < s.success_threshold) × ((t : ℕ) × (b.last_failure_time ≡ some t))
]

abbrev IfAny {ℓ} : {A : Type ℓ} → (A → Type 0) → Option A → Type 0
IfAny P none = Unit
IfAny P (some a) = P a

module _ (s : Settings) (hf : 1 ≤ s.failure_threshold) (hs : 1 ≤ s.success_threshold) where
  on_success-Consistent : (b : CircuitBreaker) → Consistent s b → Consistent s (on_success s b)
  unfolding on_success
  on_success-Consistent b c = ground (arith, hf, hs, c)

  failed-Consistent :
      (st : CircuitBreakerState) (f n : ℕ) (t : Option ℕ) (now : ℕ)
      → Consistent s (breaker st f n t)
      → Consistent s (on_failure s (breaker st f n t) now)
  unfolding on_failure transition_to
  failed-Consistent closed f n t now c = elim (Bool-cases (leb s.failure_threshold (suc f))) [
    | inl h ↦ rw h (c.1, (now, refl))
    | inr h ↦ rw h (ground (arith, h), c.1)
  ]
  failed-Consistent opened f n t now c = (c.0, (now, refl))
  failed-Consistent half_open f n t now c = (refl, (now, refl))

  settle_call-Consistent :
      (b : CircuitBreaker) (c : Call) → Consistent s b → Consistent s (settle_call s b c)
  settle_call-Consistent b c h = elim (Bool-cases c.returned) [
    | inl r ↦ rw r (on_success-Consistent b h)
    | inr r ↦
        rw r
          (failed-Consistent b.state b.failure_count b.success_count b.last_failure_time c.ended h)
  ]

  admitted-Consistent :
      (st : CircuitBreakerState) (f n : ℕ) (t : Option ℕ) (now : ℕ)
      → Consistent s (breaker st f n t)
      → IfAny (Consistent s) (admit s (breaker st f n t) now)
  unfolding admit transition_to
  admitted-Consistent closed f n t now c = c
  admitted-Consistent half_open f n t now c = c
  admitted-Consistent opened f n t now c =
      elim (Bool-cases (should_attempt_reset s (breaker opened f n t) now)) [
        | inl h ↦ rw h (hs, c.1)
        | inr h ↦ rw h tt
      ]

  entered-Consistent :
      (st : CircuitBreakerState) (f n : ℕ) (t : Option ℕ) (now later : ℕ)
      → Consistent s (breaker st f n t)
      → IfAny (Consistent s) (enter s (breaker st f n t) now later)
  unfolding enter transition_to
  entered-Consistent closed f n t now later c = c
  entered-Consistent half_open f n t now later c = c
  entered-Consistent opened f n t now later c =
      let b = breaker opened f n t in
      elim (Bool-cases (should_attempt_reset s b now)) [
        | inr h ↦ rw h tt
        | inl h ↦ elim (Bool-cases (should_attempt_reset s b later)) [
          | inl k ↦ rw h (rw k (hs, c.1))
          | inr k ↦ rw h (rw k c)
        ]
      ]

  attempt-Consistent :
      (b : CircuitBreaker) (c : Call) (o : Option CircuitBreaker)
      → IfAny (Consistent s) o
      → Consistent s b
      → Consistent s (attempt s b c o).1
  attempt-Consistent b c none a h = h
  attempt-Consistent b c (some admitted) a h = settle_call-Consistent admitted c a

  get_or-Consistent :
      (o : Option CircuitBreaker) (b : CircuitBreaker)
      → IfAny (Consistent s) o
      → Consistent s b
      → Consistent s (get_or o b)
  get_or-Consistent none b a h = h
  get_or-Consistent (some entered_now) b a h = a

  step-Consistent : (b : CircuitBreaker) (e : Event) → Consistent s b → Consistent s (step s b e)
  unfolding step call exit reset transition_to
  step-Consistent b (called c) h =
      attempt-Consistent b c (admit s b c.asked)
        (admitted-Consistent b.state b.failure_count b.success_count b.last_failure_time c.asked h)
        h
  step-Consistent b (entered now later) h =
      get_or-Consistent (enter s b now later) b
        (entered-Consistent b.state b.failure_count b.success_count b.last_failure_time now later h)
        h
  step-Consistent b (exited c) h = settle_call-Consistent b c h
  step-Consistent b reset_by_hand h = (hf, refl)

  -- Whatever calls, blocks and resets a breaker has been through, in whatever order and however
  -- they overlap: closed it holds fewer failures than the threshold and no successes, open it holds
  -- no successes and the time of a failure, and half open fewer successes than it needs and the
  -- time of a failure. The thresholds are at least 1.
  pub steps-Consistent :
      (b : CircuitBreaker) (events : List Event) → Consistent s b → Consistent s (steps s b events)
  unfolding steps
  steps-Consistent b [] h = h
  steps-Consistent b (e ∷ events) h = steps-Consistent (step s b e) events (step-Consistent b e h)
