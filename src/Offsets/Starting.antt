-- ===== src/Offsets/Starting.antt =====
-- docker/lake/offsets.py: `next_starting_offsets` and `merge_committed`, where a run starts and
-- what its commit carries forward.
use k2_market_data_platform.Base.{
  ℕ, zero, suc, ◌+◌, String, ◌≡◌, refl, Option, none, some, [], ◌∷◌, ◌&&◌, arith, get_or, prefer,
  ltb, leb, if◌then◌else◌,
}
use text.Mathlib.TextEquality.{eq_iff}
use k2_market_data_platform.Base.Int.{ℤ}
use k2_market_data_platform.Base.Eq.{string_eq, nat_eq}
use k2_market_data_platform.Base.Dict.{
  Dict, IsDict, lookup, insert, update, collect, lookup-insert, lookup-update, lookup-collect,
  update-IsDict,
}
use k2_market_data_platform.Offsets.{
  Offsets, Partitions, earliest_sentinel, parts_at, offset_at, IsOffsets, parts_at-IsDict,
  insert-IsOffsets, collect-IsOffsets,
}

-- `{p: EARLIEST for p in range(first, first + count)}`
unfoldable pub all_earliest : ℕ → ℕ → Partitions
all_earliest first zero = []
all_earliest first (suc count) = (first, earliest_sentinel) ∷ all_earliest (suc first) count

unfoldable pub starts_of : Offsets → String → ℕ → Partitions
starts_of committed topic partitions = update (all_earliest 0 partitions) (parts_at committed topic)

unfoldable pub next_starting_offsets : Offsets → Dict String ℕ → Offsets
next_starting_offsets committed partition_counts = collect (starts_of committed) [] partition_counts

merge_from : Offsets → Offsets → Offsets
merge_from merged [] = merged
merge_from merged ((topic, parts) ∷ produced) =
    merge_from (insert topic (update (parts_at merged topic) parts) merged) produced

-- The comprehension copies `previous`, which a value needs not.
unfoldable pub merge_committed : Offsets → Offsets → Offsets
unfolding merge_from
merge_committed previous produced = merge_from previous produced

-- a committed offset, or else the sentinel for a partition that the broker has
abbrev pub start_spec : Option ℤ → ℕ → ℕ → Option ℤ
start_spec (some o) partitions p = some o
start_spec none partitions p = if ltb p partitions then some earliest_sentinel else none

lookup-all_earliest :
    (p first count : ℕ)
    → lookup p (all_earliest first count)
      ≡ (if leb first p && ltb p (first + count) then some earliest_sentinel else none)
unfolding lookup all_earliest
lookup-all_earliest p first zero = ground arith
lookup-all_earliest p first (suc count) = ground (arith, lookup-all_earliest p (suc first) count)

lookup-starts_of :
    (committed : Offsets) (topic : String) (partitions p : ℕ)
    → IsOffsets committed
    → lookup p (starts_of committed topic partitions)
      ≡ start_spec (offset_at committed topic p) partitions p
unfolding starts_of
lookup-starts_of committed topic partitions p h = ground (
  arith,
  lookup-update p (all_earliest 0 partitions) (parts_at committed topic)
      (parts_at-IsDict committed topic h),
  lookup-all_earliest p 0 partitions,
)

abbrev pub next_spec : Offsets → Option ℕ → String → ℕ → Option ℤ
next_spec committed none topic p = none
next_spec committed (some partitions) topic p =
    start_spec (offset_at committed topic p) partitions p

-- Of a topic that the broker reports, the next run starts each partition at its committed offset
-- unchanged, also one beyond the broker's count; a partition below the count with none starts at
-- EARLIEST, and no other partition is named. A topic the broker does not report is not named.
pub next_starting_offsets-resumes :
    (committed : Offsets) (partition_counts : Dict String ℕ) (topic : String) (p : ℕ)
    → IsOffsets committed
    → IsDict partition_counts
    → offset_at (next_starting_offsets committed partition_counts) topic p
      ≡ next_spec committed (lookup topic partition_counts) topic p
unfolding next_starting_offsets lookup
next_starting_offsets-resumes committed counts topic p h k = ground (
  arith,
  lookup-collect (starts_of committed) topic [] counts k,
  lookup-starts_of committed topic (get_or (lookup topic counts) 0) p h,
)

merge_from-lookup :
    (merged produced : Offsets) (topic : String) (p : ℕ)
    → IsOffsets produced
    → offset_at (merge_from merged produced) topic p
      ≡ prefer (offset_at produced topic p) (offset_at merged topic p)
unfolding lookup merge_from
merge_from-lookup merged [] topic p h = refl
merge_from-lookup merged ((t, parts) ∷ produced) topic p h = ground (
  arith,
  merge_from-lookup (insert t (update (parts_at merged t) parts) merged) produced topic p
      (h.0.1, h.1.1),
  lookup-insert t topic (update (parts_at merged t) parts) merged,
  lookup-update p (parts_at merged t) parts h.1.0,
  eq_iff t topic,
)

-- After a merge every partition has the offset that the run produced for it, and where the run
-- produced none, the offset that it had before.
pub merge_committed-carries :
    (previous produced : Offsets) (topic : String) (p : ℕ)
    → IsOffsets produced
    → offset_at (merge_committed previous produced) topic p
      ≡ prefer (offset_at produced topic p) (offset_at previous topic p)
unfolding merge_committed
merge_committed-carries previous produced topic p h = merge_from-lookup previous produced topic p h

merge_from-IsOffsets :
    (merged produced : Offsets) → IsOffsets merged → IsOffsets (merge_from merged produced)
unfolding merge_from
merge_from-IsOffsets merged [] h = h
merge_from-IsOffsets merged ((t, parts) ∷ produced) h =
    merge_from-IsOffsets (insert t (update (parts_at merged t) parts) merged) produced (
      insert-IsOffsets t (update (parts_at merged t) parts) merged
        (update-IsDict (parts_at merged t) parts (parts_at-IsDict merged t h)) h)

pub merge_committed-IsOffsets :
    (previous produced : Offsets)
    → IsOffsets previous
    → IsOffsets (merge_committed previous produced)
unfolding merge_committed
merge_committed-IsOffsets previous produced h = merge_from-IsOffsets previous produced h

-- What a run committed is where the next run starts: of every topic that the broker still reports,
-- the partitions that the run produced an end for start at exactly that end.
pub next_starting_offsets-merge_committed :
    (previous produced : Offsets) (partition_counts : Dict String ℕ) (topic : String)
    (p partitions : ℕ) {end : ℤ}
    → IsOffsets previous
    → IsOffsets produced
    → IsDict partition_counts
    → lookup topic partition_counts ≡ some partitions
    → offset_at produced topic p ≡ some end
    → offset_at (next_starting_offsets (merge_committed previous produced) partition_counts) topic p
      ≡ some end
next_starting_offsets-merge_committed previous produced counts topic p partitions hp hq k known
      made =
    ground (
      arith,
      next_starting_offsets-resumes (merge_committed previous produced) counts topic p
          (merge_committed-IsOffsets previous produced hp) k,
      merge_committed-carries previous produced topic p hq,
    )

all_earliest-IsDict : (first count : ℕ) → IsDict (all_earliest first count)
unfolding all_earliest
all_earliest-IsDict first zero = tt
all_earliest-IsDict first (suc count) = (
  rw (lookup-all_earliest first (suc first) count) (ground arith),
  all_earliest-IsDict (suc first) count,
)

pub next_starting_offsets-IsOffsets :
    (committed : Offsets) (partition_counts : Dict String ℕ)
    → IsOffsets (next_starting_offsets committed partition_counts)
unfolding next_starting_offsets starts_of
next_starting_offsets-IsOffsets committed counts =
    collect-IsOffsets (starts_of committed)
      (λ t n. update-IsDict (all_earliest 0 n) (parts_at committed t) (all_earliest-IsDict 0 n)) []
      counts (tt, tt)
