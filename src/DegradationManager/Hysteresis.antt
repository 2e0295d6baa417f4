-- ===== src/DegradationManager/Hysteresis.antt =====
-- What sequences of checks do to the level and the history.
use k2_market_data_platform.Base.{
  ℕ, zero, suc, ◌+◌, ◌-◌, ◌≤◌, ◌<◌, ◌≡◌, refl, true, false, some, List, [], ◌∷◌, ◌++◌, length, drop,
  All, ◌==◌, if_intro, arith,
}
use k2_market_data_platform.DegradationManager.{
  DegradationLevel, DegradationThresholds, DegradationManager, Check, calculate_level,
  check_and_degrade, target, transition, can_recover, is_cooling, below_trigger, trim, value, reset,
  Event, checked, reset_by_hand, steps,
}

length-drop : {A : Type 0} (n : ℕ) (xs : List A) → length (drop n xs) ≡ length xs - n
length-drop zero xs = omega arith
length-drop (suc n) [] = omega arith
length-drop (suc n) (x ∷ xs) = omega (arith, length-drop n xs)

trim-bounded : (h : List (ℕ × DegradationLevel)) → length (trim h) ≤ 100
unfolding trim
trim-bounded h = ground (arith, length-drop (length h - 100) h)

module _ (t : DegradationThresholds) where
  check_and_degrade-history :
      (d : DegradationManager) (c : Check)
      → length d.history ≤ 100
      → length (check_and_degrade t d c).history ≤ 100
  unfolding check_and_degrade transition
  check_and_degrade-history d c h =
      ground (arith, h, trim-bounded (d.history ++ (c.noted_at, target t d c) ∷ []))

  -- Whatever checks and resets a manager has been through, its history holds at most 100 entries.
  pub steps-history :
      (d : DegradationManager) (events : List Event)
      → length d.history ≤ 100
      → length (steps t d events).history ≤ 100
  unfolding steps reset
  steps-history d [] h = h
  steps-history d (checked c ∷ events) h =
      steps-history (check_and_degrade t d c) events (check_and_degrade-history d c h)
  steps-history d (reset_by_hand ∷ events) h = steps-history (reset d) events h

  abbrev pub check_all : DegradationManager → List Check → DegradationManager
  check_all d [] = d
  check_all d (c ∷ checks) = check_all (check_and_degrade t d c) checks

  -- the manager's last transition was at that time or later
  abbrev pub MovedSince : ℕ → DegradationManager → Type 0
  MovedSince from d = (last : ℕ) × (d.last_degradation_time ≡ some last) × (from ≤ last)

  check_and_degrade-climbs :
      (d : DegradationManager) (c : Check) (from last : ℕ)
      → d.last_degradation_time ≡ some last
      → from ≤ last
      → c.checked_at < from + t.recovery_cooldown
      → value d.level ≤ value (check_and_degrade t d c).level
  unfolding check_and_degrade target transition can_recover
  check_and_degrade-climbs d c from last e le lt = ground (arith, e, le, lt)

  check_and_degrade-MovedSince :
      (d : DegradationManager) (c : Check) (from : ℕ)
      → MovedSince from d
      → from ≤ c.moved_at
      → MovedSince from (check_and_degrade t d c)
  unfolding check_and_degrade transition
  check_and_degrade-MovedSince d c from h le =
      if_intro (MovedSince from) (value (target t d c) == value d.level) d
        (transition d c (target t d c)) h (c.moved_at, refl, le)

  -- Within the cooldown of a transition no check lowers the level, whatever it measures, on a clock
  -- that does not run backwards past that transition.
  pub check_all-climbs :
      (d : DegradationManager) (checks : List Check) (from : ℕ)
      → MovedSince from d
      → All (λ c. (c.checked_at < from + t.recovery_cooldown) × (from ≤ c.moved_at)) checks
      → value d.level ≤ value (check_all d checks).level
  check_all-climbs d [] from h a = omega arith
  check_all-climbs d (c ∷ checks) from h a = omega (
    arith,
    check_and_degrade-climbs d c from h.0 h.1 h.2 a.0.0,
    check_all-climbs (check_and_degrade t d c) checks from
        (check_and_degrade-MovedSince d c from h a.0.1) a.1,
  )

  -- A check that lowers the level is after the cooldown, with the lag and the heap use below the
  -- recovery thresholds of the level it leaves, and it ends at the level that they ask for.
  pub check_and_degrade-recovers :
      (d : DegradationManager) (c : Check)
      → value (check_and_degrade t d c).level < value d.level
      → (is_cooling t d.last_degradation_time c.checked_at ≡ false)
        × (below_trigger t c.lag c.heap_pct d.level ≡ true)
        × (value (check_and_degrade t d c).level ≡ value (calculate_level t c.lag c.heap_pct))
  unfolding check_and_degrade target transition can_recover
  check_and_degrade-recovers d c lt = ground (arith, lt)

  -- A check never ends below the level that its measurements ask for.
  pub check_and_degrade-bounds :
      (d : DegradationManager) (c : Check)
      → value (calculate_level t c.lag c.heap_pct) ≤ value (check_and_degrade t d c).level
  unfolding check_and_degrade target transition can_recover
  check_and_degrade-bounds d c = ground arith
