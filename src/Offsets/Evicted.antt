-- ===== src/Offsets/Evicted.antt =====
-- docker/lake/offsets.py: `evicted`, the partitions that start below what the broker still holds,
-- and `skip_evicted`, the repair that moves them forward.
pub mod Repair
use text.Mathlib.TextEquality.{eq_iff}
use mathlib.Core.Option
use k2_market_data_platform.Base.{
  ℕ, String, ◌≡◌, ◌∙◌, refl, inl, inr, Bool, ◌&&◌, ◌||◌, Bool-cases, Option-cases, ap, subst,
  Option, none, some, List, [], ◌∷◌, ◌++◌, arith, get_or, prefer, if◌then◌else◌, ltb, ◌==◌,
}
use k2_market_data_platform.Base.Int.{ℤ, pos, ◌-ℤ◌, ◌≤ℤ◌, ltb_ℤ, max_ℤ}
use k2_market_data_platform.Base.Eq.{◌=?◌, string_eq, nat_eq}
use k2_market_data_platform.Base.Dict.{IsDict, lookup, insert, lookup-insert, insert-IsDict}
use k2_market_data_platform.Base.Sort.{sort, lookup-sort, sort-IsDict}
use k2_market_data_platform.Offsets.{
  Offsets, Partitions, offset_at, IsOffsets, parts_at-IsDict, insert-IsOffsets,
}

pub record Loss : Type 0 where
  pub topic : String
  pub partition : ℕ
  pub start : ℤ
  pub log_start : ℤ
  pub lost : ℤ

-- the order of Python's tuples `(partition, offset)`
unfoldable pub item_before : ℕ × ℤ → ℕ × ℤ → Bool
item_before (p, o) (q, u) = ltb p q || p == q && ltb_ℤ o u

abbrev pub log_start_in : Offsets → String → ℕ → ℤ
log_start_in earliest topic partition = get_or (offset_at earliest topic partition) (pos 0)

-- the loop over the partitions of one topic
unfoldable pub losses_of : Offsets → String → Partitions → List Loss
losses_of earliest topic [] = []
losses_of earliest topic ((partition, start) ∷ partitions) =
    let log_start = log_start_in earliest topic partition in
    let rest = losses_of earliest topic partitions in
    if ltb_ℤ start log_start
    then record {
      topic = topic;
      partition = partition;
      start = start;
      log_start = log_start;
      lost = log_start -ℤ start;
    }
      ∷ rest
    else rest

unfoldable pub evicted : Offsets → Offsets → List Loss
evicted [] earliest = []
evicted ((topic, partitions) ∷ starts) earliest =
    losses_of earliest topic (sort item_before partitions) ++ evicted starts earliest

-- `repaired[topic][partition] = log_start`; a topic that is not there is a KeyError
unfoldable pub move : Loss → Offsets → Option Offsets
move l repaired =
    Option.map (λ parts. insert l.topic (insert l.partition l.log_start parts) repaired)
      (lookup l.topic repaired)

unfoldable pub skip_evicted : Offsets → List Loss → Option Offsets
skip_evicted repaired [] = some repaired
skip_evicted repaired (l ∷ losses) = elim (move l repaired) [
  | none ↦ none
  | some moved ↦ skip_evicted moved losses
]
