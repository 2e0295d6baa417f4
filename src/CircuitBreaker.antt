-- ===== src/CircuitBreaker.antt =====
-- legacy/v1/src/k2/common/circuit_breaker.py: the breaker as a record and its methods as functions
-- into the new one. A clock reading is a count of clock units, an argument of the method that
-- reads it; the protected function is an input, by when it ends and whether it raises.
pub mod Invariant
pub mod Traces
use k2_market_data_platform.Base.{
  ℕ, suc, ◌+◌, Bool, true, false, Option, none, some, List, [], ◌∷◌, if◌then◌else◌, leb, get_or,
}

pub data CircuitBreakerState : Type 0 where
  closed : CircuitBreakerState
  opened : CircuitBreakerState
  half_open : CircuitBreakerState

pub record Settings : Type 0 where
  pub failure_threshold : ℕ
  pub success_threshold : ℕ
  pub timeout : ℕ

pub record CircuitBreaker : Type 0 where
  pub state : CircuitBreakerState
  pub failure_count : ℕ
  pub success_count : ℕ
  pub last_failure_time : Option ℕ

-- a breaker by its four fields
abbrev pub breaker : CircuitBreakerState → ℕ → ℕ → Option ℕ → CircuitBreaker
breaker state f n t = record {
  state = state;
  failure_count = f;
  success_count = n;
  last_failure_time = t;
}

-- what `__init__` and `reset` leave
abbrev pub fresh_breaker : CircuitBreaker
fresh_breaker = record {
  state = closed;
  failure_count = 0;
  success_count = 0;
  last_failure_time = none;
}

-- A call of the protected function: when the breaker looks at the clock, when the function ends,
-- and whether it returned.
pub record Call : Type 0 where
  pub asked : ℕ
  pub ended : ℕ
  pub returned : Bool

pub data Reply : Type 0 where
  -- CircuitBreakerError: the function was not run
  rejected : Reply
  result : Reply
  -- the function's own exception, raised again
  error : Reply

-- the outcome of the function itself
abbrev pub reply_of : Call → Reply
reply_of c = if c.returned then result else error

-- `elapsed >= timeout_seconds`, with the elapsed time moved to the other side
unfoldable pub should_attempt_reset : Settings → CircuitBreaker → ℕ → Bool
should_attempt_reset s b now = elim b.last_failure_time [
  | none ↦ false
  | some failed ↦ leb (failed + s.timeout) now
]

unfoldable pub transition_to : CircuitBreakerState → CircuitBreaker → CircuitBreaker
transition_to new b = record b { state = new }

unfoldable pub on_success : Settings → CircuitBreaker → CircuitBreaker
on_success s b = elim b.state [
  | half_open ↦
      if leb s.success_threshold (suc b.success_count)
      then record b { state = closed; failure_count = 0; success_count = 0 }
      else record b { failure_count = 0; success_count = suc b.success_count }
  | closed ↦ record b { failure_count = 0 }
  | opened ↦ record b { failure_count = 0 }
]

-- the count and the time, before the state is looked at
abbrev pub failed_at : ℕ → CircuitBreaker → CircuitBreaker
failed_at now b = record b { failure_count = suc b.failure_count; last_failure_time = some now }

unfoldable pub on_failure : Settings → CircuitBreaker → ℕ → CircuitBreaker
on_failure s b now = elim b.state [
  | half_open ↦ record (transition_to opened (failed_at now b)) { success_count = 0 }
  | closed ↦
      if leb s.failure_threshold (suc b.failure_count)
      then transition_to opened (failed_at now b)
      else failed_at now b
  | opened ↦ failed_at now b
]

abbrev pub settle_call : Settings → CircuitBreaker → Call → CircuitBreaker
settle_call s b c = if c.returned then on_success s b else on_failure s b c.ended

-- The guard of `call`: none when the call is refused.
unfoldable pub admit : Settings → CircuitBreaker → ℕ → Option CircuitBreaker
admit s b now = elim b.state [
  | opened ↦
      if should_attempt_reset s b now
      then some (record (transition_to half_open b) { success_count = 0 })
      else none
  | closed ↦ some b
  | half_open ↦ some b
]

-- the rest of `call`: the raise, or the function and what it leads to
abbrev pub attempt :
    Settings → CircuitBreaker → Call → Option CircuitBreaker → Reply × CircuitBreaker
attempt s b c none = (rejected, b)
attempt s b c (some admitted) = (reply_of c, settle_call s admitted c)

unfoldable pub call : Settings → CircuitBreaker → Call → Reply × CircuitBreaker
call s b c = attempt s b c (admit s b c.asked)

abbrev pub is_opened : CircuitBreaker → Bool
is_opened b = elim b.state [ opened ↦ true | closed ↦ false | half_open ↦ false ]

-- `__enter__` asks `_should_attempt_reset` twice, so it reads the clock twice.
unfoldable pub enter : Settings → CircuitBreaker → ℕ → ℕ → Option CircuitBreaker
enter s b now later =
    if is_opened b
    then if should_attempt_reset s b now
      then if should_attempt_reset s b later
        then some (record (transition_to half_open b) { success_count = 0 })
        else some b
      else none
    else some b

unfoldable pub exit : Settings → CircuitBreaker → Call → CircuitBreaker
exit s b c = settle_call s b c

unfoldable pub reset : CircuitBreaker → CircuitBreaker
reset b = record (transition_to closed b) {
  failure_count = 0;
  success_count = 0;
  last_failure_time = none;
}

-- What happens to a breaker. The blocks of `with` may nest and overlap, so that an exit may come in
-- whatever state the others left.
pub data Event : Type 0 where
  called : Call → Event
  entered : ℕ → ℕ → Event
  exited : Call → Event
  reset_by_hand : Event

unfoldable pub step : Settings → CircuitBreaker → Event → CircuitBreaker
step s b (called c) = (call s b c).1
step s b (entered now later) = get_or (enter s b now later) b
step s b (exited c) = exit s b c
step s b reset_by_hand = reset b

unfoldable pub steps : Settings → CircuitBreaker → List Event → CircuitBreaker
steps s b [] = b
steps s b (e ∷ events) = steps s (step s b e) events
