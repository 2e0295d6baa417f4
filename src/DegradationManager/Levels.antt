-- ===== src/DegradationManager/Levels.antt =====
-- How the level depends on what is measured.
use k2_market_data_platform.Base.{ℕ, ◌≤◌, arith}
use k2_market_data_platform.DegradationManager.{DegradationThresholds, calculate_level, value}

-- A higher lag and a higher heap use never ask for a lower level, whatever the thresholds are.
pub calculate_level_monotone :
    (t : DegradationThresholds) (lag more heap fuller : ℕ)
    → lag ≤ more
    → heap ≤ fuller
    → value (calculate_level t lag heap) ≤ value (calculate_level t more fuller)
unfolding calculate_level
calculate_level_monotone t lag more heap fuller h k = ground (arith, h, k)
