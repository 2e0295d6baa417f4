-- ===== src/Tests/BreakerTests.antt =====
-- A breaker that opens after two failures, closes after two successes, and waits 60.

use k2_market_data_platform.Base.{ℕ, refl, true, false, List, [], ◌∷◌, arith}
use k2_market_data_platform.CircuitBreaker.{
  Settings, fresh_breaker, Call, Event, called, entered, exited, reset_by_hand, steps,
}
use k2_market_data_platform.CircuitBreaker.Invariant.{Consistent, steps-Consistent}

abbrev settings : Settings
settings = record { failure_threshold = 2; success_threshold = 2; timeout = 60 }

abbrev failure : ℕ → Call
failure now = record { asked = now; ended = now; returned = false }

abbrev success : ℕ → Call
success now = record { asked = now; ended = now; returned = true }

abbrev events : List Event
events =
    called (failure 1)
    ∷ called (failure 2)
    ∷ called (success 10)
    ∷ entered 70 70
    ∷ exited (success 71)
    ∷ reset_by_hand
    ∷ []

steps-Consistent_example : Consistent settings (steps settings fresh_breaker events)
steps-Consistent_example =
    steps-Consistent settings (omega arith) (omega arith) fresh_breaker events (omega arith, refl)
