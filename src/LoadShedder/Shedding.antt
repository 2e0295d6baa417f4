-- ===== src/LoadShedder/Shedding.antt =====
-- What is shed, and what the counters say of it.
use k2_market_data_platform.Base.{
  ℕ, suc, ◌+◌, ◌≤◌, ◌≡◌, String, true, false, List, [], ◌∷◌, length, if◌then◌else◌, arith,
}
use k2_market_data_platform.Base.Eq.{◌=?◌, string_eq}
use k2_market_data_platform.DegradationManager.{contains}
use k2_market_data_platform.LoadShedder.{
  Tiers, Counters, get_priority, record_shed, should_process, processed_of, get_shed_stats,
}

module _ (t : Tiers) where
  -- What is processed at one level is processed at every lower one, whatever the counters are.
  pub should_process_antitone :
      (n k : Counters) (symbol data_type : String) (level lower : ℕ)
      → lower ≤ level
      → (should_process t n symbol level data_type).0 ≡ true
      → (should_process t k symbol lower data_type).0 ≡ true
  unfolding should_process
  should_process_antitone n k symbol data_type level lower le h = ground (arith, le, h)

  -- A message of a first-tier symbol that is not reference data is processed at every level.
  pub should_process-critical :
      (n : Counters) (symbol data_type : String) (level : ℕ)
      → contains symbol t.tier_1 ≡ true
      → (data_type =? "reference_data") ≡ false
      → level ≤ 4
      → (should_process t n symbol level data_type).0 ≡ true
  unfolding should_process get_priority
  should_process-critical n symbol data_type level c r le = ground (arith, c, r, le)

  should_process-counts :
      (n : Counters) (symbol data_type : String) (level : ℕ)
      → level ≤ 4
      → ((should_process t n symbol level data_type).1.total_checked ≡ suc n.total_checked)
        × ((should_process t n symbol level data_type).1.total_shed ≡ (
            if (should_process t n symbol level data_type).0
            then n.total_shed
            else suc n.total_shed))
  unfolding should_process record_shed
  should_process-counts n symbol data_type level le = ground (arith, le)

  processed_of-counts :
      (n : Counters) (level : ℕ) (symbols : List String)
      → level ≤ 4
      → ((processed_of t n level symbols).1.total_checked ≡ n.total_checked + length symbols)
        × ((processed_of t n level symbols).1.total_shed + (processed_of t n level symbols).0
            ≡ n.total_shed + length symbols)
  unfolding processed_of
  processed_of-counts n level [] le = (omega arith, omega arith)
  processed_of-counts n level (s ∷ symbols) le =
      let r = should_process t n s level "trades" in
      ground (
        arith,
        should_process-counts n s "trades" level le,
        processed_of-counts r.1 level symbols le,
      )

  processed_of-length :
      (n : Counters) (level : ℕ) (symbols : List String)
      → (processed_of t n level symbols).0 ≤ length symbols
  unfolding processed_of
  processed_of-length n level [] = omega arith
  processed_of-length n level (s ∷ symbols) =
      ground (arith, processed_of-length (should_process t n s level "trades").1 level symbols)

  -- `get_shed_stats` splits its symbols into the processed and the shed, and it moves the counters:
  -- each symbol counts as a message that was checked, and each one shed as a message that was shed.
  pub get_shed_stats-counts :
      (n : Counters) (symbols : List String) (level : ℕ)
      → level ≤ 4
      → ((get_shed_stats t n symbols level).1.total_checked ≡ n.total_checked + length symbols)
        × ((get_shed_stats t n symbols level).1.total_shed
            ≡ n.total_shed + (get_shed_stats t n symbols level).0.shed)
        × ((get_shed_stats t n symbols level).0.processed
              + (get_shed_stats t n symbols level).0.shed
            ≡ length symbols)
  unfolding get_shed_stats
  get_shed_stats-counts n symbols level le =
      ground (arith, processed_of-counts n level symbols le, processed_of-length n level symbols)
