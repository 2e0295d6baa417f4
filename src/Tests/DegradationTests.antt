-- ===== src/Tests/DegradationTests.antt =====
-- The default thresholds, heap percentages in tenths; and the default tiers.
use k2_market_data_platform.Base.{ℕ, ◌≡◌, refl, some, []}
use k2_market_data_platform.DegradationManager.{
  graceful, DegradationManager, Check, value, calculate_level, check_and_degrade,
  default_thresholds, default_critical_symbols, target, can_recover, transition,
}
use k2_market_data_platform.LoadShedder.{default_tiers, Counters}

abbrev check : ℕ → ℕ → Check
check lag now = record {
  lag = lag;
  heap_pct = 400;
  checked_at = now;
  moved_at = now;
  noted_at = now;
}

abbrev degraded : DegradationManager
degraded = record { level = graceful; last_degradation_time = some 100; history = [] }

recovers : value (check_and_degrade default_thresholds degraded (check 200000 140)).level ≡ 1
unfolding check_and_degrade target calculate_level can_recover transition
recovers = refl

-- The symbols that the manager keeps are the first tier of the shedder.
same_symbols : default_critical_symbols ≡ default_tiers.tier_1
same_symbols = refl

abbrev no_counts : Counters
no_counts = record { total_checked = 0; total_shed = 0 }
