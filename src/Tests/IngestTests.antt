-- ===== src/Tests/IngestTests.antt =====
-- docker/lake/ingest.py at small inputs: three runs over one topic of two partitions.
use k2_market_data_platform.Base.{◌≤◌, String, ◌≡◌, refl, true, false, none, some, [], ◌∷◌, arith}
use k2_market_data_platform.Base.Int.{ℤ, pos, ◌+ℤ◌, ◌-ℤ◌, min_ℤ, max_ℤ}
use k2_market_data_platform.Base.Eq.{string_eq, nat_eq}
use k2_market_data_platform.Base.Dict.{lookup, insert, collect, update}
use k2_market_data_platform.Base.Sort.{sort, place}
use k2_market_data_platform.Offsets.{Offsets, offset_at}
use k2_market_data_platform.Offsets.Starting.{
  next_starting_offsets, starts_of, all_earliest, merge_committed,
}
use k2_market_data_platform.Offsets.Bounded.{
  log_start_of, end_of_log_of, instant_of, resolve_start, cap_instant, cap_size, stop_at, start_of,
  stop_of, left_of, bound_partitions, bound_topics, bounded_offsets,
}
use k2_market_data_platform.Offsets.Evicted.{evicted, losses_of, skip_evicted, move, item_before}
use k2_market_data_platform.Ingest.{
  Run, committed, partition_counts, partitions_in, offsets_in, same_offsets, accept_loss, settle,
  first_plan, append, stage_raw, empty_lake, record_outcome, ingest, ingest_all,
}
use k2_market_data_platform.Ingest.Planned.{IsBroker}
use k2_market_data_platform.Ingest.Advance.{Advanced, stage_raw-Advanced}
use k2_market_data_platform.Ingest.Once.{copies, Contiguous, ingest_all-once, ingest_all-Contiguous}

program : Unit {0}
unfolding ◌+ℤ◌ ◌-ℤ◌ min_ℤ max_ℤ lookup insert collect update sort place next_starting_offsets
    starts_of all_earliest merge_committed log_start_of end_of_log_of instant_of resolve_start
    cap_instant cap_size stop_at start_of stop_of left_of bound_partitions bound_topics
    bounded_offsets evicted losses_of skip_evicted move item_before partition_counts partitions_in
    offsets_in same_offsets accept_loss settle first_plan append stage_raw record_outcome ingest
    ingest_all
program = tt

abbrev topic : String
topic = "k2.kraken"

abbrev log_of : ℤ → ℤ → Offsets
log_of a b = (topic, (0, a) ∷ (1, b) ∷ []) ∷ []

abbrev run_at : Offsets → Offsets → Run
run_at earliest latest = record {
  broker = record { earliest = earliest; latest = latest; until = none };
  max_per_partition = pos 50;
  accept_data_loss = false;
  filed = true;
  records = true;
}

abbrev first_run : Run
first_run = run_at (log_of (pos 0) (pos 10)) (log_of (pos 120) (pos 30))

abbrev second_run : Run
second_run = run_at (log_of (pos 0) (pos 10)) (log_of (pos 200) (pos 45))

first_run_commits :
    stage_raw first_run []
    ≡ committed
        (record {
          starts = log_of (pos 0) (pos 10);
          ends = log_of (pos 50) (pos 30);
          backlog = (topic, pos 70) ∷ [];
        })
        (log_of (pos 50) (pos 30))
unfolding program
first_run_commits = refl

second_run_resumes :
    offset_at (ingest_all empty_lake (first_run ∷ second_run ∷ [])).offsets topic 0 ≡ some (pos 100)
unfolding program
second_run_resumes = refl

first_run-IsBroker : IsBroker first_run.broker
unfolding log_start_of lookup
first_run-IsBroker = record {
  keys = ((refl, tt), ((refl, (refl, tt)), tt));
  nonneg = λ t p. ground arith;
}

second_run-IsBroker : IsBroker second_run.broker
unfolding log_start_of lookup
second_run-IsBroker = record {
  keys = ((refl, tt), ((refl, (refl, tt)), tt));
  nonneg = λ t p. ground arith;
}

ingest_all-once_example :
    copies topic 0 (ingest_all empty_lake (first_run ∷ second_run ∷ [])).archive (pos 49) ≤ 1
ingest_all-once_example =
    ingest_all-once topic 0 (first_run ∷ second_run ∷ []) (pos 49)
      (first_run-IsBroker, (second_run-IsBroker, tt))

ingest_all-Contiguous_example :
    Contiguous topic 0
      (offset_at (ingest_all empty_lake (first_run ∷ second_run ∷ [])).offsets topic 0)
      (copies topic 0 (ingest_all empty_lake (first_run ∷ second_run ∷ [])).archive)
ingest_all-Contiguous_example =
    ingest_all-Contiguous topic 0 (first_run ∷ second_run ∷ [])
      ((first_run-IsBroker, refl), ((second_run-IsBroker, refl), tt))

stage_raw-Advanced_example :
    Advanced first_run topic 1 none (some (pos 10)) (some (pos 30)) (some (pos 30))
unfolding program
stage_raw-Advanced_example =
    stage_raw-Advanced first_run topic 1 [] (log_of (pos 50) (pos 30))
      (record {
        starts = log_of (pos 0) (pos 10);
        ends = log_of (pos 50) (pos 30);
        backlog = (topic, pos 70) ∷ [];
      })
      first_run-IsBroker (tt, tt) tt first_run_commits
