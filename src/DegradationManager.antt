-- ===== src/DegradationManager.antt =====
-- legacy/v1/src/k2/common/degradation_manager.py: the manager as a record and its methods as
-- functions into the new one. Heap percentages and the two recovery factors are exact decimals:
-- percentages counted in a fixed fraction of a percent, factors as a numerator over a denominator.
pub mod Levels
pub mod Hysteresis
use k2_market_data_platform.Base.{
  ℕ, ◌+◌, ◌-◌, ◌*◌, String, Bool, true, false, ◌&&◌, ◌||◌, Option, none, some, List, [], ◌∷◌, ◌++◌,
  length, drop, if◌then◌else◌, ltb, leb, ◌==◌,
}
use k2_market_data_platform.Base.Eq.{◌=?◌, string_eq}

pub data DegradationLevel : Type 0 where
  normal : DegradationLevel
  soft : DegradationLevel
  graceful : DegradationLevel
  aggressive : DegradationLevel
  circuit_break : DegradationLevel

-- the value of the IntEnum, by which levels are compared
abbrev pub value : DegradationLevel → ℕ
value normal = 0
value soft = 1
value graceful = 2
value aggressive = 3
value circuit_break = 4

-- the lag and the heap use that trigger one level
pub record Trigger : Type 0 where
  pub lag : ℕ
  pub heap : ℕ

pub record Factor : Type 0 where
  pub numerator : ℕ
  pub denominator : ℕ

pub record DegradationThresholds : Type 0 where
  pub soft_at : Trigger
  pub graceful_at : Trigger
  pub aggressive_at : Trigger
  pub circuit_break_at : Trigger
  pub recovery_lag_factor : Factor
  pub recovery_heap_factor : Factor
  pub recovery_cooldown : ℕ

pub record DegradationManager : Type 0 where
  pub level : DegradationLevel
  pub last_degradation_time : Option ℕ
  pub history : List (ℕ × DegradationLevel)

-- One health check: what is measured, and the clock at the three places that read it.
pub record Check : Type 0 where
  pub lag : ℕ
  pub heap_pct : ℕ
  pub checked_at : ℕ
  pub moved_at : ℕ
  pub noted_at : ℕ

-- `lag >= ... or heap_pct >= ...`
abbrev pub triggers : Trigger → ℕ → ℕ → Bool
triggers t lag heap_pct = leb t.lag lag || leb t.heap heap_pct

unfoldable pub calculate_level : DegradationThresholds → ℕ → ℕ → DegradationLevel
calculate_level t lag heap_pct =
    if triggers t.circuit_break_at lag heap_pct
    then circuit_break
    else if triggers t.aggressive_at lag heap_pct
    then aggressive
    else if triggers t.graceful_at lag heap_pct
    then graceful
    else if triggers t.soft_at lag heap_pct
    then soft
    else normal

-- `x < trigger * factor`
abbrev pub below : Factor → ℕ → ℕ → Bool
below f x trigger = ltb (x * f.denominator) (trigger * f.numerator)

abbrev pub recovered : DegradationThresholds → ℕ → ℕ → Trigger → Bool
recovered t lag heap_pct trigger =
    below t.recovery_lag_factor lag trigger.lag
    && below t.recovery_heap_factor heap_pct trigger.heap

-- the thresholds of the level that is to be left
abbrev pub below_trigger : DegradationThresholds → ℕ → ℕ → DegradationLevel → Bool
below_trigger t lag heap_pct circuit_break = recovered t lag heap_pct t.circuit_break_at
below_trigger t lag heap_pct aggressive = recovered t lag heap_pct t.aggressive_at
below_trigger t lag heap_pct graceful = recovered t lag heap_pct t.graceful_at
below_trigger t lag heap_pct soft = recovered t lag heap_pct t.soft_at
below_trigger t lag heap_pct normal = true

-- `elapsed < cooldown`, with the last transition moved to the other side
abbrev pub is_cooling : DegradationThresholds → Option ℕ → ℕ → Bool
is_cooling t none now = false
is_cooling t (some last) now = ltb now (last + t.recovery_cooldown)

unfoldable pub can_recover :
    DegradationThresholds → DegradationManager → Check → DegradationLevel → Bool
can_recover t d c current =
    if is_cooling t d.last_degradation_time c.checked_at
    then false
    else below_trigger t c.lag c.heap_pct current

-- `history[-100:]` of a history that is longer
unfoldable pub trim : List (ℕ × DegradationLevel) → List (ℕ × DegradationLevel)
trim history = if ltb 100 (length history) then drop (length history - 100) history else history

unfoldable pub transition : DegradationManager → Check → DegradationLevel → DegradationManager
transition d c new_level = record {
  level = new_level;
  last_degradation_time = some c.moved_at;
  history = trim (d.history ++ (c.noted_at, new_level) ∷ []);
}

-- the level that a check is for, after the hysteresis
unfoldable pub target : DegradationThresholds → DegradationManager → Check → DegradationLevel
target t d c =
    let new_level = calculate_level t c.lag c.heap_pct in
    if ltb (value new_level) (value d.level)
    then if can_recover t d c d.level then new_level else d.level
    else new_level

-- the new manager, whose level is what the method returns
unfoldable pub check_and_degrade :
    DegradationThresholds → DegradationManager → Check → DegradationManager
check_and_degrade t d c =
    let new_level = target t d c in
    if value new_level == value d.level then d else transition d c new_level

unfoldable pub reset : DegradationManager → DegradationManager
reset d = record d { level = normal; last_degradation_time = none }

abbrev pub fresh_manager : DegradationManager
fresh_manager = record { level = normal; last_degradation_time = none; history = [] }

-- the critical symbols of `__init__` without arguments
abbrev pub default_critical_symbols : List String
default_critical_symbols =
    "BHP" ∷ "CBA" ∷ "CSL" ∷ "NAB" ∷ "WBC" ∷ "ANZ" ∷ "WES" ∷ "MQG" ∷ "RIO" ∷ "TLS" ∷ "WOW" ∷ "FMG"
    ∷ "NCM" ∷ "STO" ∷ "WPL" ∷ "AMC" ∷ "GMG" ∷ "TCL" ∷ "COL" ∷ "ALL" ∷ []

-- the defaults, with heap percentages in tenths of a percent
abbrev pub default_thresholds : DegradationThresholds
default_thresholds = record {
  soft_at = record { lag = 100000; heap = 700 };
  graceful_at = record { lag = 500000; heap = 800 };
  aggressive_at = record { lag = 1000000; heap = 900 };
  circuit_break_at = record { lag = 5000000; heap = 950 };
  recovery_lag_factor = record { numerator = 5; denominator = 10 };
  recovery_heap_factor = record { numerator = 9; denominator = 10 };
  recovery_cooldown = 30;
}

-- `symbol in symbols`, for a set
unfoldable pub contains : String → List String → Bool
contains symbol [] = false
contains symbol (s ∷ symbols) = if s =? symbol then true else contains symbol symbols

unfoldable pub should_process_symbol : List String → DegradationManager → String → Bool
should_process_symbol critical_symbols d symbol =
    if ltb (value d.level) (value graceful) then true else contains symbol critical_symbols

unfoldable pub is_accepting_data : DegradationManager → Bool
is_accepting_data d = ltb (value d.level) (value circuit_break)

unfoldable pub should_skip_enrichment : DegradationManager → Bool
should_skip_enrichment d = leb (value soft) (value d.level)

unfoldable pub should_spill_to_disk : DegradationManager → Bool
should_spill_to_disk d = leb (value aggressive) (value d.level)

-- What happens to a manager.
pub data Event : Type 0 where
  checked : Check → Event
  reset_by_hand : Event

unfoldable pub steps : DegradationThresholds → DegradationManager → List Event → DegradationManager
steps t d [] = d
steps t d (checked c ∷ events) = steps t (check_and_degrade t d c) events
steps t d (reset_by_hand ∷ events) = steps t (reset d) events
