-- ===== src/HybridQuery.antt =====
-- legacy/v1/src/k2/query/hybrid_engine.py: HybridQueryEngine, from the routing of a query to the merge
-- of the two answers. The query engine of Iceberg is a parameter, none where it raises. A time is a
-- count of clock units, and the clock is past the commit lag. The tag `_source` is left out: nothing
-- reads it. It is set on the records of both answers, those of Kafka being the dicts that the tail's
-- buffer holds, and taken off those that are answered; on a record that the limit or the dedupe drops
-- it stays.
pub mod Merge
pub mod Routing
use k2_market_data_platform.Base.{
  ℕ, suc, ◌+◌, ◌-◌, String, Bool, true, false, ◌&&◌, ◌||◌, Option, none, some, List, [], ◌∷◌, ◌++◌,
  length, take, get_or, if◌then◌else◌, ltb, leb, min, max,
}
use k2_market_data_platform.Base.Order.{text_before}
use k2_market_data_platform.Base.Sort.{sort}
use k2_market_data_platform.DegradationManager.{contains}
use k2_market_data_platform.Base.Eq.{given}
use k2_market_data_platform.KafkaTail.{Tail, query}

-- `r.get("timestamp", "")`: a text, as of JSON and where there is none, a timestamp, or None
pub data Stamp : Type 0 where
  text : String → Stamp
  instant : ℕ → Stamp
  null : Stamp

pub record TradeRecord (D : Type 0) : Type 0 where
  pub message_id : Option String
  pub timestamp : Stamp
  pub rest : D

abbrev pub needs_kafka : ℕ → ℕ → Bool
needs_kafka end_time kafka_cutoff = ltb kafka_cutoff end_time

abbrev pub needs_iceberg : Option ℕ → ℕ → Bool
needs_iceberg none kafka_cutoff = true
needs_iceberg (some start_time) kafka_cutoff = ltb start_time kafka_cutoff

-- the end of the range that Iceberg is asked for, and the start of the one for Kafka
abbrev pub iceberg_end : ℕ → ℕ → ℕ
iceberg_end end_time kafka_cutoff =
    if needs_kafka end_time kafka_cutoff then min end_time kafka_cutoff else end_time

abbrev pub kafka_start : Option ℕ → ℕ → ℕ
kafka_start none kafka_cutoff = kafka_cutoff
kafka_start (some start_time) kafka_cutoff = max start_time kafka_cutoff

module _ {D : Type 0} where
  abbrev pub is_text : TradeRecord D → Bool
  is_text r = elim r.timestamp [ text s ↦ true | instant t ↦ false | null ↦ false ]

  abbrev pub is_instant : TradeRecord D → Bool
  is_instant r = elim r.timestamp [ text s ↦ false | instant t ↦ true | null ↦ false ]

  abbrev pub all_of : (TradeRecord D → Bool) → List (TradeRecord D) → Bool
  all_of p [] = true
  all_of p (r ∷ rs) = p r && all_of p rs

  -- two timestamps of different kinds, or two times None, do not compare
  abbrev pub compares : List (TradeRecord D) → Bool
  compares rs = leb (length rs) 1 || (all_of is_text rs || all_of is_instant rs)

  abbrev pub earlier : TradeRecord D → TradeRecord D → Bool
  earlier a b = elim a.timestamp [
    | text s ↦ elim b.timestamp [ text t ↦ text_before s t | instant t ↦ false | null ↦ false ]
    | instant s ↦ elim b.timestamp [ text t ↦ false | instant t ↦ ltb s t | null ↦ false ]
    | null ↦ false
  ]

  -- the sort raises a TypeError where two keys do not compare
  unfoldable pub sort_by_timestamp : List (TradeRecord D) → Option (List (TradeRecord D))
  sort_by_timestamp rs = if compares rs then some (sort earlier rs) else none

  -- the loop over all results, with the set of the ids seen
  unfoldable pub dedupe : List String → List (TradeRecord D) → List (TradeRecord D)
  dedupe seen [] = []
  dedupe seen (r ∷ rs) = elim (given r.message_id) [
    | none ↦ r ∷ dedupe seen rs
    | some i ↦ if contains i seen then dedupe seen rs else r ∷ dedupe (i ∷ seen) rs
  ]

  abbrev pub limited : ℕ → Option (List (TradeRecord D)) → Option (List (TradeRecord D))
  limited limit none = none
  limited limit (some rs) = some (take limit rs)

  unfoldable pub merge_results :
      List (TradeRecord D) → List (TradeRecord D) → ℕ → Option (List (TradeRecord D))
  merge_results iceberg_results kafka_results limit =
      limited limit (sort_by_timestamp (dedupe [] (iceberg_results ++ kafka_results)))

  -- an error of the engine is logged, and the answer is empty
  abbrev pub query_iceberg :
      (Option ℕ → ℕ → ℕ → Option (List (TradeRecord D))) → Option ℕ → ℕ → ℕ → List (TradeRecord D)
  query_iceberg engine start_time end_time limit = get_or (engine start_time end_time limit) []

  unfoldable pub query_kafka :
      Tail (TradeRecord D) → String → String → ℕ → ℕ → ℕ → List (TradeRecord D)
  query_kafka tail symbol exchange start_time end_time limit =
      take limit (query symbol exchange start_time end_time tail)

  module _ (engine : String → String → Option ℕ → ℕ → ℕ → Option (List (TradeRecord D)))
      (tail : Tail (TradeRecord D)) (commit_lag : ℕ) where
    -- after the default of the end time; none where the merge raises
    unfoldable pub query_range :
        String → String → Option ℕ → ℕ → ℕ → ℕ → Option (List (TradeRecord D))
    query_range symbol exchange start_time end_time limit kafka_cutoff =
        merge_results
          (if needs_iceberg start_time kafka_cutoff
            then query_iceberg (engine symbol exchange) start_time
                (iceberg_end end_time kafka_cutoff) limit
            else [])
          (if needs_kafka end_time kafka_cutoff
            then query_kafka tail symbol exchange (kafka_start start_time kafka_cutoff) end_time
                limit
            else [])
          limit

    -- the clock is read for the end time and again for the cutoff
    unfoldable pub query_trades :
        String → String → Option ℕ → Option ℕ → ℕ → ℕ → ℕ → Option (List (TradeRecord D))
    query_trades symbol exchange start_time end_time limit asked_at now =
        query_range symbol exchange start_time (get_or end_time asked_at) limit (now - commit_lag)
