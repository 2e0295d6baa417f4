-- ===== src/LoadShedder.antt =====
-- legacy/v1/src/k2/common/load_shedder.py: the priority of a message and the decision to process it
-- or to shed it, with the shedder's two counters.
pub mod Shedding
use k2_market_data_platform.Base.{
  ℕ, suc, ◌-◌, String, Bool, true, false, ◌&&◌, List, [], ◌∷◌, length, if◌then◌else◌, leb, ◌==◌,
}
use k2_market_data_platform.Base.Eq.{◌=?◌, string_eq}
use k2_market_data_platform.DegradationManager.{contains}

pub data MessagePriority : Type 0 where
  critical : MessagePriority
  high : MessagePriority
  normal : MessagePriority
  low : MessagePriority

abbrev pub rank : MessagePriority → ℕ
rank critical = 1
rank high = 2
rank normal = 3
rank low = 4

pub record Tiers : Type 0 where
  pub tier_1 : List String
  pub tier_2 : List String

abbrev pub default_tier_1 : List String
default_tier_1 =
    "BHP" ∷ "CBA" ∷ "CSL" ∷ "NAB" ∷ "WBC" ∷ "ANZ" ∷ "WES" ∷ "MQG" ∷ "RIO" ∷ "TLS" ∷ "WOW" ∷ "FMG"
    ∷ "NCM" ∷ "STO" ∷ "WPL" ∷ "AMC" ∷ "GMG" ∷ "TCL" ∷ "COL" ∷ "ALL" ∷ []

abbrev pub default_tier_2 : List String
default_tier_2 =
    "REA" ∷ "QAN" ∷ "BXB" ∷ "ORG" ∷ "JHX" ∷ "CPU" ∷ "SHL" ∷ "ASX" ∷ "IAG" ∷ "APA" ∷ "S32" ∷ "MIN"
    ∷ "SGP" ∷ "AGL" ∷ "RMD" ∷ "SEK" ∷ "ORI" ∷ "QBE" ∷ "MPL" ∷ "AZJ" ∷ "WHC" ∷ "LLC" ∷ "SCG" ∷ "EVN"
    ∷ "JBH" ∷ "DXS" ∷ "GPT" ∷ "MGR" ∷ "NST" ∷ "BOQ" ∷ "ILU" ∷ "ALX" ∷ "VCX" ∷ "SDF" ∷ "CHC" ∷ "TAH"
    ∷ "ALU" ∷ "IPL" ∷ "HVN" ∷ "ORA" ∷ []

-- `__init__` without arguments
abbrev pub default_tiers : Tiers
default_tiers = record { tier_1 = default_tier_1; tier_2 = default_tier_2 }

pub record Counters : Type 0 where
  pub total_checked : ℕ
  pub total_shed : ℕ

unfoldable pub get_priority : Tiers → String → String → MessagePriority
get_priority t symbol data_type =
    if data_type =? "reference_data"
    then low
    else if contains symbol t.tier_1
    then critical
    else if contains symbol t.tier_2
    then high
    else normal

unfoldable pub record_shed : Counters → Counters
record_shed n = record n { total_shed = suc n.total_shed }

-- the answer, and the count of a message that is shed
abbrev pub decide : Bool → Counters → Bool × Counters
decide true n = (true, n)
decide false n = (false, record_shed n)

-- One branch for each level, and none beyond 4: such a message is refused without being counted.
unfoldable pub should_process : Tiers → Counters → String → ℕ → String → Bool × Counters
should_process t n symbol degradation_level data_type =
    let counted = record n { total_checked = suc n.total_checked } in
    let priority = get_priority t symbol data_type in
    if degradation_level == 0
    then (true, counted)
    else if degradation_level == 1
    then (true, counted)
    else if degradation_level == 2
    then decide (leb (rank priority) (rank normal)) counted
    else if degradation_level == 3
    then decide (leb (rank priority) (rank high)) counted
    else if degradation_level == 4
    then decide (rank priority == rank critical) counted
    else (false, counted)

-- the sum of `get_shed_stats`, whose calls count as any other
unfoldable pub processed_of : Tiers → Counters → ℕ → List String → ℕ × Counters
processed_of t n degradation_level [] = (0, n)
processed_of t n degradation_level (s ∷ symbols) =
    let r = should_process t n s degradation_level "trades" in
    let rest = processed_of t r.1 degradation_level symbols in
    ((if r.0 then suc rest.0 else rest.0), rest.1)

pub record ShedStats : Type 0 where
  pub total : ℕ
  pub processed : ℕ
  pub shed : ℕ

unfoldable pub get_shed_stats : Tiers → Counters → List String → ℕ → ShedStats × Counters
get_shed_stats t n symbols degradation_level =
    let r = processed_of t n degradation_level symbols in
    (record { total = length symbols; processed = r.0; shed = length symbols - r.0 }, r.1)
