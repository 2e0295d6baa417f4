-- ===== src/Ingest.antt =====
-- docker/lake/ingest.py: the offset decisions of `stage_raw` and `_accept_data_loss`, and the lake
-- table as the list of the ranges that its commits appended. Spark's read of a pinned range, the
-- audit table's writer and the broker are inputs of a run.
pub mod Planned
pub mod Advance
pub mod Once
use k2_market_data_platform.Base.{
  ℕ, String, Bool, true, false, ◌&&◌, ◌⊎◌, inl, inr, Option, none, some, List, [], ◌∷◌, map, length,
  if◌then◌else◌, ◌==◌,
}
use k2_market_data_platform.Base.Int.{ℤ, ◌==ℤ◌}
use k2_market_data_platform.Base.Eq.{Eq, ◌=?◌, string_eq, nat_eq}
use k2_market_data_platform.Base.Dict.{Dict, lookup}
use k2_market_data_platform.Offsets.{Offsets, Partitions}
use k2_market_data_platform.Offsets.Starting.{next_starting_offsets, merge_committed}
use k2_market_data_platform.Offsets.Bounded.{Broker, Plan, bounded_offsets}
use k2_market_data_platform.Offsets.Evicted.{Loss, evicted, skip_evicted}

-- What a run is given, and what the systems around it answer.
pub record Run : Type 0 where
  pub broker : Broker
  pub max_per_partition : ℤ
  pub accept_data_loss : Bool
  -- whether `write_audit_rows` filed the findings
  pub filed : Bool
  -- whether the pinned range held a record, so that `max_kafka_ts` is not None
  pub records : Bool

pub data Outcome : Type 0 where
  -- SystemExit: losses, and no `--accept-data-loss`
  data_loss : List Loss → Outcome
  -- SystemExit: the gap could not be recorded
  unrecorded : List Loss → Outcome
  -- a KeyError of `skip_evicted`
  key_error : Outcome
  no_new_records : Outcome
  nothing_read : Plan → Outcome
  -- the appended range, and the `k2.kafka-offsets` of its snapshot
  committed : Plan → Offsets → Outcome

unfoldable pub partition_counts : Offsets → Dict String ℕ
partition_counts earliest = map (λ e. (e.0, length e.1)) earliest

-- every entry of the first dict is in the second
unfoldable pub partitions_in : Partitions → Partitions → Bool
partitions_in [] d = true
partitions_in ((p, o) ∷ c) d =
    elim (lookup p d) [ none ↦ false | some u ↦ o ==ℤ u ] && partitions_in c d

unfoldable pub offsets_in : Offsets → Offsets → Bool
offsets_in [] d = true
offsets_in ((t, ps) ∷ c) d =
    elim (lookup t d) [ none ↦ false | some qs ↦ length ps == length qs && partitions_in ps qs ]
    && offsets_in c d

-- `starts == ends`: dicts of dicts, compared whatever their order
unfoldable pub same_offsets : Offsets → Offsets → Bool
same_offsets a b = length a == length b && offsets_in a b

unfoldable pub accept_loss : Run → Plan → List Loss → Outcome ⊎ Plan
accept_loss r plan losses =
    if r.filed
    then elim (skip_evicted plan.starts losses) [
      | none ↦ inl key_error
      | some repaired ↦ inr (bounded_offsets r.broker r.max_per_partition repaired)
    ]
    else inl (unrecorded losses)

-- the plan of a run, or how it stopped before it had one
unfoldable pub settle : Run → Plan → List Loss → Outcome ⊎ Plan
settle r plan [] = inr plan
settle r plan (l ∷ losses) =
    if r.accept_data_loss then accept_loss r plan (l ∷ losses) else inl (data_loss (l ∷ losses))

unfoldable pub first_plan : Run → Offsets → Plan
first_plan r previous =
    bounded_offsets r.broker r.max_per_partition
      (next_starting_offsets previous (partition_counts r.broker.earliest))

unfoldable pub append : Run → Offsets → Plan → Outcome
append r previous plan =
    if same_offsets plan.starts plan.ends
    then no_new_records
    else if r.records
    then committed plan (merge_committed previous plan.ends)
    else nothing_read plan

unfoldable pub stage_raw : Run → Offsets → Outcome
stage_raw r previous =
    let plan = first_plan r previous in
    elim (settle r plan (evicted plan.starts r.broker.earliest)) [
      | inl stopped ↦ stopped
      | inr settled ↦ append r previous settled
    ]

-- The lake as the ingest sees it: the offsets of the newest ingest snapshot, and what each ingest
-- snapshot appended, newest first.
pub record Lake : Type 0 where
  pub offsets : Offsets
  pub archive : List Plan

abbrev pub empty_lake : Lake
empty_lake = record { offsets = []; archive = [] }

-- A commit is one fact: the rows and the offsets, or neither.
unfoldable pub record_outcome : Lake → Outcome → Lake
record_outcome lake (committed plan next) = record { offsets = next; archive = plan ∷ lake.archive }
record_outcome lake (data_loss _) = lake
record_outcome lake (unrecorded _) = lake
record_outcome lake key_error = lake
record_outcome lake no_new_records = lake
record_outcome lake (nothing_read _) = lake

unfoldable pub ingest : Lake → Run → Lake
ingest lake r = record_outcome lake (stage_raw r lake.offsets)

unfoldable pub ingest_all : Lake → List Run → Lake
ingest_all lake [] = lake
ingest_all lake (r ∷ runs) = ingest_all (ingest lake r) runs
