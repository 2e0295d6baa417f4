-- ===== src/CircuitBreaker/Traces.antt =====
-- What sequences of calls do to a breaker: the count of consecutive failures, the opening, the wait
-- and the recovery, and the block of `with` against `call`.
use k2_market_data_platform.Base.{
  ℕ, suc, ◌+◌, ◌≤◌, ◌<◌, ◌≡◌, refl, sym, ◌∙◌, ap, true, false, Bool-cases, inl, inr, Option, none,
  some, List, [], ◌∷◌, All, map, length, leb, leb-true, leb-false, leb→le, get_or, if◌then◌else◌,
  arith,
}
use mathlib.Core.Option
use k2_market_data_platform.CircuitBreaker.{
  Settings, CircuitBreaker, CircuitBreakerState, closed, opened, half_open, Call, Reply, rejected,
  result, error, reply_of, settle_call, should_attempt_reset, transition_to, on_success, on_failure,
  fresh_breaker, admit, attempt, call, enter, exit, breaker,
}

-- the breaker after some calls, and what the callers saw
abbrev pub after : Settings → CircuitBreaker → List Call → CircuitBreaker
after s b [] = b
after s b (c ∷ calls) = after s (call s b c).1 calls

abbrev pub replies : Settings → CircuitBreaker → List Call → List Reply
replies s b [] = []
replies s b (c ∷ calls) = (call s b c).0 ∷ replies s (call s b c).1 calls

-- How many of the last executed calls in a row failed, with `n` before the list.
abbrev pub streak : ℕ → List Reply → ℕ
streak n [] = n
streak n (rejected ∷ rs) = streak n rs
streak n (result ∷ rs) = streak 0 rs
streak n (error ∷ rs) = streak (suc n) rs

module _ (s : Settings) where
  on_success-failure_count : (b : CircuitBreaker) → (on_success s b).failure_count ≡ 0
  unfolding on_success
  on_success-failure_count b = ground arith

  failed-failure_count :
      (st : CircuitBreakerState) (f n : ℕ) (t : Option ℕ) (now : ℕ)
      → (on_failure s (breaker st f n t) now).failure_count ≡ suc f
  unfolding on_failure transition_to
  failed-failure_count closed f n t now = elim (Bool-cases (leb s.failure_threshold (suc f))) [
    | inl h ↦ rw h refl
    | inr h ↦ rw h refl
  ]
  failed-failure_count opened f n t now = refl
  failed-failure_count half_open f n t now = refl

  settle_call-failure_count :
      (b : CircuitBreaker) (c : Call) (rs : List Reply)
      → streak (settle_call s b c).failure_count rs ≡ streak b.failure_count (reply_of c ∷ rs)
  settle_call-failure_count b c rs = elim (Bool-cases c.returned) [
    | inl r ↦ rw (r, on_success-failure_count b) refl
    | inr r ↦
        rw
          (
            r,
            failed-failure_count b.state b.failure_count b.success_count b.last_failure_time
                c.ended,
          )
          refl
  ]

  admit-failure_count :
      (b : CircuitBreaker) (now : ℕ) (a : CircuitBreaker)
      → admit s b now ≡ some a
      → a.failure_count ≡ b.failure_count
  unfolding admit transition_to
  admit-failure_count b now a h = ground (arith, h)

  attempt-failure_count :
      (b : CircuitBreaker) (c : Call) (o : Option CircuitBreaker) (rs : List Reply)
      → admit s b c.asked ≡ o
      → streak (attempt s b c o).1.failure_count rs
        ≡ streak b.failure_count ((attempt s b c o).0 ∷ rs)
  attempt-failure_count b c none rs h = refl
  attempt-failure_count b c (some a) rs h =
      settle_call-failure_count a c rs
      ∙ ap (λ n. streak n (reply_of c ∷ rs)) (admit-failure_count b c.asked a h)

  -- After any calls of any breaker, the failure count is the number of failures in a row that the
  -- executed calls end with, on top of the breaker's count where none of them succeeded.
  pub after-failure_count :
      (b : CircuitBreaker) (calls : List Call)
      → (after s b calls).failure_count ≡ streak b.failure_count (replies s b calls)
  unfolding call
  after-failure_count b [] = refl
  after-failure_count b (c ∷ calls) =
      after-failure_count (call s b c).1 calls
      ∙ attempt-failure_count b c (admit s b c.asked) (replies s (call s b c).1 calls) refl

  -- the calls of a list that ended in an exception
  abbrev pub AllFailed : List Call → Type 0
  AllFailed calls = All (λ c. c.returned ≡ false) calls

  abbrev pub AllReturned : List Call → Type 0
  AllReturned calls = All (λ c. c.returned ≡ true) calls

  -- one failure while closed, below the threshold and at it
  failed_below :
      (f n : ℕ) (t : Option ℕ) (c : Call)
      → c.returned ≡ false
      → suc f < s.failure_threshold
      → (call s (breaker closed f n t) c).1 ≡ breaker closed (suc f) n (some c.ended)
  unfolding call admit on_failure transition_to
  failed_below f n t c r lt = rw (r, leb-false s.failure_threshold (suc f) lt) refl

  failed_at_threshold :
      (f n : ℕ) (t : Option ℕ) (c : Call)
      → c.returned ≡ false
      → s.failure_threshold ≤ suc f
      → (call s (breaker closed f n t) c).1 ≡ breaker opened (suc f) n (some c.ended)
  unfolding call admit on_failure transition_to
  failed_at_threshold f n t c r le = rw (r, leb-true s.failure_threshold (suc f) le) refl

  shift : (f k : ℕ) → f + suc k ≡ suc f + k
  shift f k = omega arith

  zero_first : (k : ℕ) → 0 + k ≡ k
  zero_first k = omega arith

  failing :
      (f n : ℕ) (t : Option ℕ) (calls : List Call)
      → AllFailed calls
      → f < s.failure_threshold
      → f + length calls ≤ s.failure_threshold
      → (after s (breaker closed f n t) calls).state
        ≡ (if leb s.failure_threshold (f + length calls) then opened else closed)
  failing f n t [] a lt le = rw (leb-false s.failure_threshold (f + 0) (omega arith)) refl
  failing f n t (c ∷ []) a lt le = elim (Bool-cases (leb s.failure_threshold (f + 1))) [
    | inl h ↦ rw (h, failed_at_threshold f n t c a.0 (ground arith)) refl
    | inr h ↦ rw (h, failed_below f n t c a.0 (ground arith)) refl
  ]
  failing f n t (c ∷ d ∷ calls) a lt le =
      ap (λ b. (after s b (d ∷ calls)).state) (failed_below f n t c a.0 (omega arith))
      ∙ failing (suc f) n (some c.ended) (d ∷ calls) a.1 (omega arith) (omega arith)
      ∙ ap (λ k. if leb s.failure_threshold k then opened else closed)
          (sym (shift f (suc (length calls))))

  -- A fresh breaker whose calls all fail, at most as many as the failure threshold, is open when
  -- they reach the threshold and closed before. The threshold is at least 1.
  pub fresh-opens :
      (calls : List Call)
      → AllFailed calls
      → 1 ≤ s.failure_threshold
      → length calls ≤ s.failure_threshold
      → (after s fresh_breaker calls).state
        ≡ (if leb s.failure_threshold (length calls) then opened else closed)
  fresh-opens calls a one le =
      failing 0 0 none calls a one (omega (arith, le))
      ∙ ap (λ k. if leb s.failure_threshold k then opened else closed) (zero_first (length calls))

  rejected_before :
      (f n : ℕ) (t : ℕ) (c : Call)
      → c.asked < t + s.timeout
      → call s (breaker opened f n (some t)) c ≡ (rejected, breaker opened f n (some t))
  unfolding call admit should_attempt_reset
  rejected_before f n t c lt = rw (leb-false (t + s.timeout) c.asked lt) refl

  -- An open breaker refuses every call that is asked before the timeout since its last failure has
  -- passed, without running the function, and stays as it was.
  pub opened-waits :
      (f n t : ℕ) (calls : List Call)
      → All (λ c. c.asked < t + s.timeout) calls
      → (replies s (breaker opened f n (some t)) calls ≡ map (λ c. rejected) calls)
        × (after s (breaker opened f n (some t)) calls ≡ breaker opened f n (some t))
  opened-waits f n t [] a = (refl, refl)
  opened-waits f n t (c ∷ calls) a =
      let rest = opened-waits f n t calls a.1 in
      rw (rejected_before f n t c a.0) (ap (λ rs. rejected ∷ rs) rest.0, rest.1)

  recovering :
      (f n : ℕ) (t : Option ℕ) (calls : List Call)
      → AllReturned calls
      → suc n + length calls ≡ s.success_threshold
      → (c : Call) → c.returned ≡ true
      → after s (breaker half_open f n t) (c ∷ calls) ≡ breaker closed 0 0 t
  unfolding call admit on_success
  recovering f n t [] a e c r = rw (r, leb-true s.success_threshold (suc n) (omega arith)) refl
  recovering f n t (d ∷ calls) a e c r =
      rw (r, leb-false s.success_threshold (suc n) (omega arith))
        (recovering 0 (suc n) t calls a.1 (omega arith) d a.0)

  -- Once the timeout has passed, an open breaker lets the next call through, and the success
  -- threshold's number of calls in a row that return close it with all counts at zero; the threshold
  -- is at least 1.
  pub opened-recovers :
      (f n t : ℕ) (c : Call) (calls : List Call)
      → t + s.timeout ≤ c.asked
      → AllReturned (c ∷ calls)
      → length (c ∷ calls) ≡ s.success_threshold
      → after s (breaker opened f n (some t)) (c ∷ calls) ≡ breaker closed 0 0 (some t)
  unfolding call admit should_attempt_reset transition_to
  opened-recovers f n t c calls le a e =
      rw (leb-true (t + s.timeout) c.asked le)
        (recovering f 0 (some t) calls a.1 (omega arith) c a.0)

  -- A single failure of a half-open breaker opens it again, and the timeout starts anew when that
  -- call ended: until then every call is refused.
  pub half_open-reopens :
      (f n : ℕ) (t : Option ℕ) (c : Call) (calls : List Call)
      → c.returned ≡ false
      → All (λ d. d.asked < c.ended + s.timeout) calls
      → replies s (breaker half_open f n t) (c ∷ calls) ≡ error ∷ map (λ d. rejected) calls
  unfolding call admit on_failure transition_to
  half_open-reopens f n t c calls r a =
      rw r (ap (λ rs. error ∷ rs) (opened-waits (suc f) 0 c.ended calls a).0)

  later_too : {a b c : ℕ} → a ≤ b → b ≤ c → a ≤ c
  later_too h k = omega arith

  enter-admit :
      (st : CircuitBreakerState) (f n : ℕ) (t : Option ℕ) (now later : ℕ)
      → now ≤ later
      → enter s (breaker st f n t) now later ≡ admit s (breaker st f n t) now
  unfolding enter admit should_attempt_reset
  enter-admit closed f n t now later le = refl
  enter-admit half_open f n t now later le = refl
  enter-admit opened f n none now later le = refl
  enter-admit opened f n (some t) now later le = elim (Bool-cases (leb (t + s.timeout) now)) [
    | inl h ↦
        rw (h, leb-true (t + s.timeout) later (later_too (leb→le (t + s.timeout) now h) le)) refl
    | inr h ↦ rw h refl
  ]

  settled :
      (b : CircuitBreaker) (c : Call) (o : Option CircuitBreaker)
      → get_or (Option.map (λ e. exit s e c) o) b ≡ (attempt s b c o).1
  unfolding exit
  settled b c none = refl
  settled b c (some e) = refl

  -- A `with` block leaves the breaker as `call` does with the same function, on a clock that does
  -- not run backwards between the two readings of `__enter__`.
  pub exit-call :
      (b : CircuitBreaker) (c : Call) (later : ℕ)
      → c.asked ≤ later
      → get_or (Option.map (λ e. exit s e c) (enter s b c.asked later)) b ≡ (call s b c).1
  unfolding call
  exit-call b c later le =
      settled b c (enter s b c.asked later)
      ∙ ap (λ o. (attempt s b c o).1)
          (enter-admit b.state b.failure_count b.success_count b.last_failure_time c.asked later le)
