-- ===== src/HybridQuery/Routing.antt =====
-- Which part of a query's range each source is asked for.
use k2_market_data_platform.Base.{
  ℕ, ◌≡◌, ◌≢◌, ◌⊎◌, Bool, false, not, ◌==◌, ◌&&◌, ◌||◌, Option, none, some, leb, arith,
}
use k2_market_data_platform.HybridQuery.{needs_kafka, needs_iceberg, iceberg_end, kafka_start}

-- a range that begins with the first time there is, or at a given one
abbrev pub in_range : Option ℕ → ℕ → ℕ → Bool
in_range none end_time t = leb t end_time
in_range (some start_time) end_time t = leb start_time t && leb t end_time

abbrev pub asks_iceberg : Option ℕ → ℕ → ℕ → ℕ → Bool
asks_iceberg start_time end_time kafka_cutoff t =
    needs_iceberg start_time kafka_cutoff
    && in_range start_time (iceberg_end end_time kafka_cutoff) t

abbrev pub asks_kafka : Option ℕ → ℕ → ℕ → ℕ → Bool
asks_kafka start_time end_time kafka_cutoff t =
    needs_kafka end_time kafka_cutoff
    && in_range (some (kafka_start start_time kafka_cutoff)) end_time t

-- A time is in the range of a query exactly where one of the sources is asked for it, and both are
-- asked for no time but the cutoff. A query for the single time of the cutoff is left out: it goes to
-- neither.
pub routes_cover :
    (start_time : Option ℕ) (end_time kafka_cutoff t : ℕ)
    → (start_time ≢ some kafka_cutoff) ⊎ (end_time ≢ kafka_cutoff)
    → ((asks_iceberg start_time end_time kafka_cutoff t
          || asks_kafka start_time end_time kafka_cutoff t)
        ≡ in_range start_time end_time t)
      × ((asks_iceberg start_time end_time kafka_cutoff t
            && asks_kafka start_time end_time kafka_cutoff t
            && not (t == kafka_cutoff))
          ≡ false)
routes_cover none end_time kafka_cutoff t h = ground arith
routes_cover (some start_time) end_time kafka_cutoff t h = ground (arith, h)
