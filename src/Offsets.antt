-- ===== src/Offsets.antt =====
-- docker/lake/offsets.py: the offset bookkeeping of the lake's ingest. This file has the shape of
-- an offset map, `{topic: {partition: offset}}`, and Kafka's sentinels; the functions are below.
pub mod Starting
pub mod Bounded
pub mod Evicted
pub mod Holes
pub mod Summary
pub mod Codec
pub mod Continuity
use k2_market_data_platform.Base.{
  ℕ, String, ◌≡◌, refl, Option, none, some, List, [], ◌∷◌, All, arith, get_or, if◌then◌else◌,
}
use k2_market_data_platform.Base.Int.{ℤ, negsuc}
use k2_market_data_platform.Base.Eq.{Eq, ◌=?◌, string_eq, nat_eq}
use k2_market_data_platform.Base.Dict.{Dict, IsDict, lookup, insert, insert-IsDict, collect}

-- Kafka's sentinel offsets.
abbrev pub earliest_sentinel : ℤ
earliest_sentinel = negsuc 1

abbrev pub latest_sentinel : ℤ
latest_sentinel = negsuc 0

abbrev pub Partitions : Type 0
Partitions = Dict ℕ ℤ

abbrev pub Offsets : Type 0
Offsets = Dict String Partitions

-- `offsets.get(topic, {})`
abbrev pub parts_at : Offsets → String → Partitions
parts_at d topic = get_or (lookup topic d) []

-- `offsets.get(topic, {}).get(partition)`
abbrev pub offset_at : Offsets → String → ℕ → Option ℤ
offset_at d topic partition = lookup partition (parts_at d topic)

-- No key twice, neither among the topics nor among the partitions of one topic.
abbrev pub IsOffsets : Offsets → Type 0
IsOffsets d = IsDict d × All (λ (e : String × Partitions). IsDict e.1) d

pub parts_at-IsDict : (d : Offsets) (topic : String) → IsOffsets d → IsDict (parts_at d topic)
unfolding lookup
parts_at-IsDict [] topic h = tt
parts_at-IsDict ((t, ps) ∷ d) topic h = ground (arith, parts_at-IsDict d topic (h.0.1, h.1.1))

insert-All :
    (topic : String) (ps : Partitions) (d : Offsets)
    → IsDict ps
    → All (λ (e : String × Partitions). IsDict e.1) d
    → All (λ (e : String × Partitions). IsDict e.1) (insert topic ps d)
unfolding insert
insert-All topic ps [] h k = (h, tt)
insert-All topic ps ((t, qs) ∷ d) h k = ground (arith, insert-All topic ps d h k.1)

pub insert-IsOffsets :
    (topic : String) (ps : Partitions) (d : Offsets)
    → IsDict ps
    → IsOffsets d
    → IsOffsets (insert topic ps d)
insert-IsOffsets topic ps d h k = (insert-IsDict topic ps d k.0, insert-All topic ps d h k.1)

pub collect-IsOffsets {κ} :
    {V : Type κ} (g : String → V → Partitions)
    → ((topic : String) (v : V) → IsDict (g topic v))
    → (out : Offsets) (d : Dict String V) → IsOffsets out
    → IsOffsets (collect g out d)
unfolding collect
collect-IsOffsets g each out [] h = h
collect-IsOffsets g each out ((t, v) ∷ d) h =
    collect-IsOffsets g each (insert t (g t v) out) d (insert-IsOffsets t (g t v) out (each t v) h)
