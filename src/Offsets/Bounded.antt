-- ===== src/Offsets/Bounded.antt =====
-- docker/lake/offsets.py: `bounded_offsets`, the range that a run reads and the backlog it leaves.
pub mod Stop
pub mod Lookup
use k2_market_data_platform.Base.{
  ℕ, String, ◌≡◌, refl, ◌⊎◌, inl, inr, ◌≢◌, Option, none, some, List, [], ◌∷◌, arith, get_or,
  if◌then◌else◌,
}
use k2_market_data_platform.Base.Int.{
  ℤ, pos, negsuc, pos_part, neg_part, ◌+ℤ◌, ◌-ℤ◌, ◌≤ℤ◌, ◌<ℤ◌, ◌==ℤ◌, ltb_ℤ, leb_ℤ, min_ℤ, max_ℤ,
  int_laws, +ℤ_parts, -ℤ_parts, eq_of_parts,
}
use k2_market_data_platform.Base.Eq.{Eq, ◌=?◌, string_eq, nat_eq}
use k2_market_data_platform.Base.Dict.{
  Dict, IsDict, lookup, insert, collect, lookup-collect, collect-IsDict,
}
use k2_market_data_platform.Offsets.{
  Offsets, Partitions, earliest_sentinel, latest_sentinel, parts_at, offset_at, IsOffsets,
}

-- What the broker says: the log's first offset, its end, and where the `--end-timestamp` falls.
pub record Broker : Type 0 where
  pub earliest : Offsets
  pub latest : Offsets
  pub until : Option Offsets

-- The dicts that the function builds for one topic.
pub record Ranges : Type 0 where
  pub starts : Partitions
  pub ends : Partitions
  pub backlog : ℤ

-- The dicts that it returns.
pub record Plan : Type 0 where
  pub starts : Offsets
  pub ends : Offsets
  pub backlog : Dict String ℤ

unfoldable pub log_start_of : Broker → String → ℕ → ℤ
log_start_of b topic partition = get_or (offset_at b.earliest topic partition) (pos 0)

unfoldable pub end_of_log_of : Broker → String → ℕ → ℤ
end_of_log_of b topic partition =
    get_or (offset_at b.latest topic partition) (log_start_of b topic partition)

-- `until.get(topic, {}).get(partition, -1)`, if there is such a bound
unfoldable pub instant_of : Broker → String → ℕ → Option ℤ
instant_of b topic partition = elim b.until [
  | none ↦ none
  | some u ↦ some (get_or (offset_at u topic partition) (negsuc 0))
]

unfoldable pub resolve_start : ℤ → ℤ → ℤ → ℤ
resolve_start first end_of_log offset =
    if offset ==ℤ earliest_sentinel
    then first
    else if offset ==ℤ latest_sentinel
    then end_of_log
    else offset

unfoldable pub cap_instant : Option ℤ → ℤ → ℤ
cap_instant none stop = stop
cap_instant (some at_instant) stop =
    if leb_ℤ (pos 0) at_instant then min_ℤ stop at_instant else stop

unfoldable pub cap_size : ℤ → ℤ → ℤ → ℤ
cap_size max_per_partition start stop =
    if ltb_ℤ (pos 0) max_per_partition then min_ℤ stop (start +ℤ max_per_partition) else stop

unfoldable pub stop_at : ℤ → Option ℤ → ℤ → ℤ → ℤ
stop_at end_of_log instant max_per_partition start =
    max_ℤ (cap_size max_per_partition start (cap_instant instant end_of_log)) start

module _ (broker : Broker) (max_per_partition : ℤ) where
  unfoldable pub start_of : String → ℕ → ℤ → ℤ
  start_of topic partition offset =
      resolve_start (log_start_of broker topic partition) (end_of_log_of broker topic partition)
        offset

  unfoldable pub stop_of : String → ℕ → ℤ → ℤ
  stop_of topic partition offset =
      stop_at (end_of_log_of broker topic partition) (instant_of broker topic partition)
        max_per_partition (start_of topic partition offset)

  unfoldable pub left_of : String → ℕ → ℤ → ℤ
  left_of topic partition offset =
      max_ℤ (pos 0) (end_of_log_of broker topic partition -ℤ stop_of topic partition offset)

  abbrev pub note_partition : String → Ranges → ℕ → ℤ → Ranges
  note_partition topic r partition offset = record {
    starts = insert partition (start_of topic partition offset) r.starts;
    ends = insert partition (stop_of topic partition offset) r.ends;
    backlog = r.backlog +ℤ left_of topic partition offset;
  }

  -- the loop over the partitions of one topic
  unfoldable pub bound_partitions : String → Ranges → Partitions → Ranges
  bound_partitions topic r [] = r
  bound_partitions topic r ((partition, offset) ∷ partitions) =
      bound_partitions topic (note_partition topic r partition offset) partitions

  abbrev pub ranges_of : String → Partitions → Ranges
  ranges_of topic partitions =
      bound_partitions topic (record { starts = []; ends = []; backlog = pos 0 }) partitions

  abbrev pub note_topic : Plan → String → Partitions → Plan
  note_topic plan topic partitions =
      let r = ranges_of topic partitions in
      record {
        starts = insert topic r.starts plan.starts;
        ends = insert topic r.ends plan.ends;
        backlog = insert topic r.backlog plan.backlog;
      }

  -- the loop over the topics
  unfoldable pub bound_topics : Plan → Offsets → Plan
  bound_topics plan [] = plan
  bound_topics plan ((topic, partitions) ∷ starting) =
      bound_topics (note_topic plan topic partitions) starting

  unfoldable pub bounded_offsets : Offsets → Plan
  bounded_offsets starting = bound_topics (record { starts = []; ends = []; backlog = [] }) starting
