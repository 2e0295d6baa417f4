-- ===== src/Producer/Retries.antt =====
-- How often a message is put in Kafka's queue, and how long its producer waits.
use Prim.Native.Nat.pow
use native.Mathlib.Nat.{mul_assoc}
use k2_market_data_platform.Base.{
  ℕ, zero, suc, ◌*◌, ◌^◌, ◌≤◌, ◌≡◌, sym, ap, ◌∙◌, Bool, true, false, Bool-cases, inl, inr, List, [],
  ◌∷◌, ◌++◌, append_assoc, append-nil, if◌then◌else◌, min, arith,
}
use k2_market_data_platform.Producer.{
  Try, queued, queue_full, full_raises, refused, poll_raises, RetrySettings, Producing, Produced,
  sent, failed, enqueue, is_sent, ends_call, count_retry, sleep, attempts, produce_with_retry,
}

abbrev pub producing_of : {M : Type 0} → Produced M → Producing M
producing_of (sent p) = p
producing_of (failed p) = p

abbrev pub is_returned : {M : Type 0} → Produced M → Bool
is_returned (sent p) = true
is_returned (failed p) = false

-- whether one of `n` attempts from the `k`-th on is sent, and none before it ends the call
abbrev pub any_sent : (ℕ → Try) → ℕ → ℕ → Bool
any_sent tries zero k = false
any_sent tries (suc n) k = elim (tries k) [
  | queued ↦ true
  | queue_full ↦ any_sent tries n (suc k)
  | full_raises ↦ false
  | refused ↦ any_sent tries n (suc k)
  | poll_raises ↦ any_sent tries n (suc k)
]

-- how many of these attempts, up to the first that is sent or ends the call, put the message in the
-- queue
abbrev pub copies : (ℕ → Try) → ℕ → ℕ → ℕ
copies tries zero k = 0
copies tries (suc n) k = elim (tries k) [
  | queued ↦ 1
  | queue_full ↦ copies tries n (suc k)
  | full_raises ↦ 0
  | refused ↦ copies tries n (suc k)
  | poll_raises ↦ suc (copies tries n (suc k))
]

abbrev pub times : {M : Type 0} → ℕ → M → List M
times zero m = []
times (suc n) m = m ∷ times n m

-- the waits before the retries, from the `i`-th on: exponential, up to the limit
abbrev pub waits : RetrySettings → ℕ → ℕ → List ℕ
waits s zero i = []
waits s (suc n) i =
    min (s.initial_retry_delay * s.retry_backoff_factor ^ i) s.max_retry_delay ∷ waits s n (suc i)

-- the attempts that are not sent before one is, or one ends the call, up to the retries
abbrev pub misses : (ℕ → Try) → ℕ → ℕ → ℕ
misses tries zero k = 0
misses tries (suc left) k =
    if is_sent (tries k)
    then 0
    else if ends_call (tries k)
    then 0
    else suc (misses tries left (suc k))

module _ {M : Type 0} (s : RetrySettings) (message : M) (tries : ℕ → Try) where
  attempts-copies :
      (left k delay : ℕ) (p : Producing M)
      → ((producing_of (attempts s message tries left k delay p)).queue
          ≡ p.queue ++ times (copies tries (suc left) k) message)
        × (is_returned (attempts s message tries left k delay p) ≡ any_sent tries (suc left) k)
  unfolding attempts
  attempts-copies zero k delay p = ground (arith, append-nil p.queue)
  attempts-copies (suc left) k delay p = ground (
    arith,
    attempts-copies left (suc k) (delay * s.retry_backoff_factor)
        (sleep s delay (count_retry (enqueue message (tries k) p))),
    append_assoc p.queue (message ∷ []) (times (copies tries (suc left) (suc k)) message),
    append-nil p.queue,
  )

  copies_le : (n k : ℕ) → copies tries n k ≤ n
  copies_le zero k = omega arith
  copies_le (suc n) k = ground (arith, copies_le n (suc k))

  -- A message is put in the queue once for every attempt that gets it there, which may be several,
  -- up to the first that is sent or in which the poll after a full queue raises, and at most one more
  -- than the retries. The call returns exactly where one of these attempts is sent.
  pub produce_with_retry-copies :
      (p : Producing M)
      → ((producing_of (produce_with_retry s message tries p)).queue
          ≡ p.queue ++ times (copies tries (suc s.max_retries) 0) message)
        × (is_returned (produce_with_retry s message tries p)
            ≡ any_sent tries (suc s.max_retries) 0)
        × (copies tries (suc s.max_retries) 0 ≤ suc s.max_retries)
  unfolding produce_with_retry
  produce_with_retry-copies p =
      let h = attempts-copies s.max_retries 0 s.initial_retry_delay p in
      (h.0, h.1, copies_le (suc s.max_retries) 0)

  enqueue-slept : (t : Try) (p : Producing M) → (enqueue message t p).slept ≡ p.slept
  enqueue-slept t p = ground arith

  attempts-waits :
      (left k delay : ℕ) (p : Producing M)
      → delay ≡ s.initial_retry_delay * s.retry_backoff_factor ^ k
      → (producing_of (attempts s message tries left k delay p)).slept
        ≡ p.slept ++ waits s (misses tries left k) k
  unfolding attempts
  attempts-waits zero k delay p h = ground (arith, append-nil p.slept)
  attempts-waits (suc left) k delay p h = elim (Bool-cases (is_sent (tries k))) [
    | inl ok ↦ rw ok (ground (arith, append-nil p.slept, enqueue-slept (tries k) p))
    | inr missed ↦ elim (Bool-cases (ends_call (tries k))) [
      | inl over ↦ rw (missed, over) (ground (arith, append-nil p.slept, enqueue-slept (tries k) p))
      | inr goes_on ↦
          rw (missed, goes_on)
            (attempts-waits left (suc k) (delay * s.retry_backoff_factor) _ next
              ∙ ap
                  (λ w.
                    w
                    ++ min delay s.max_retry_delay ∷ []
                    ++ waits s (misses tries left (suc k)) (suc k))
                  (enqueue-slept (tries k) p)
              ∙ append_assoc p.slept (min delay s.max_retry_delay ∷ [])
                  (waits s (misses tries left (suc k)) (suc k))
              ∙ ap
                  (λ d.
                    p.slept
                    ++ min d s.max_retry_delay ∷ waits s (misses tries left (suc k)) (suc k))
                  h)
    ]
  ]
    where
      next : delay * s.retry_backoff_factor ≡ s.initial_retry_delay * s.retry_backoff_factor ^ suc k
      next =
          ap (λ d. d * s.retry_backoff_factor) h
          ∙ mul_assoc s.initial_retry_delay (s.retry_backoff_factor ^ k) s.retry_backoff_factor
          ∙ ap (λ d. s.initial_retry_delay * d) (sym (pow.suc s.retry_backoff_factor k))

  -- A producer waits before every retry and at no other time: the first delay times the backoff factor
  -- to the number of earlier retries, or the limit where that is less.
  pub produce_with_retry-waits :
      (p : Producing M)
      → (producing_of (produce_with_retry s message tries p)).slept
        ≡ p.slept ++ waits s (misses tries s.max_retries 0) 0
  unfolding produce_with_retry
  produce_with_retry-waits p =
      attempts-waits s.max_retries 0 s.initial_retry_delay p
        (omega (arith, ap (λ d. s.initial_retry_delay * d) (pow.zero s.retry_backoff_factor)))
