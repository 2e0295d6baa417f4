-- ===== src/Tests/OffsetsTests.antt =====
-- docker/lake/offsets.py at small inputs.

use mathlib.Core.Option
use mathlib.Core.List.{Mem}
use k2_market_data_platform.Base.{
  ℕ, zero, suc, String, ◌≡◌, ◌⊎◌, refl, ap, false, none, some, [], ◌∷◌, map, All, arith,
}
use k2_market_data_platform.Base.Int.{ℤ, pos, ◌+ℤ◌, max_ℤ}
use k2_market_data_platform.Base.Eq.{string_eq, nat_eq}
use k2_market_data_platform.Base.Dict.{Dict, lookup, insert}
use k2_market_data_platform.Base.Sort.{sort, place}
use k2_market_data_platform.Offsets.{Offsets, offset_at, earliest_sentinel}
use k2_market_data_platform.Offsets.Bounded.{
  Broker, bounded_offsets, resolve_start, log_start_of, end_of_log_of,
}
use k2_market_data_platform.Offsets.Bounded.Lookup.{IsRange, bounded_offsets-IsRange}
use k2_market_data_platform.Offsets.Evicted.{evicted, skip_evicted, log_start_in}
use k2_market_data_platform.Offsets.Evicted.Repair.{skip_evicted-evicted}
use k2_market_data_platform.Offsets.Holes.{
  Hole, uncovered_holes, group_gaps, holes_left, is_covered, walk, range_before,
}
use k2_market_data_platform.Offsets.Holes.Exact.{Explained, uncovered_holes-exact}
use k2_market_data_platform.Offsets.Summary.{Snapshot}
use k2_market_data_platform.Offsets.Codec.{Python, encode, decode, decode-encode}
use k2_market_data_platform.Offsets.Continuity.{
  offset_gaps, row_of, finding_of, unbalanced, Stored, offset_gaps-unbalanced,
}

abbrev log_of : ℤ → ℤ → Offsets
log_of a b = ("k2.kraken", (0, a) ∷ (1, b) ∷ []) ∷ []

abbrev broker : Broker
broker = record {
  earliest = log_of (pos 5) (pos 10);
  latest = log_of (pos 80) (pos 12);
  until = none;
}

abbrev asked : Offsets
asked = log_of earliest_sentinel (pos 11)

bounded_offsets-IsRange_example :
    ((offset_at asked "k2.kraken" 0 ≡ none)
      × (offset_at (bounded_offsets broker (pos 50) asked).starts "k2.kraken" 0 ≡ none)
      × (offset_at (bounded_offsets broker (pos 50) asked).ends "k2.kraken" 0 ≡ none))
    ⊎ ((o start end : ℤ) × (offset_at asked "k2.kraken" 0 ≡ some o)
        × (offset_at (bounded_offsets broker (pos 50) asked).starts "k2.kraken" 0 ≡ some start)
        × (offset_at (bounded_offsets broker (pos 50) asked).ends "k2.kraken" 0 ≡ some end)
        × (start
            ≡ resolve_start
                (log_start_of broker "k2.kraken" 0)
                (end_of_log_of broker "k2.kraken" 0)
                o)
        × IsRange broker (pos 50) "k2.kraken" 0 start end)
unfolding lookup
bounded_offsets-IsRange_example =
    bounded_offsets-IsRange broker (pos 50) asked "k2.kraken" 0
      ((refl, tt), ((refl, (refl, tt)), tt))

skip_evicted-evicted_example :
    (r : Offsets) × (skip_evicted
        (log_of (pos 3) (pos 11))
        (evicted (log_of (pos 3) (pos 11)) broker.earliest)
      ≡ some r)
    × ((t : String) (p : ℕ)
        → offset_at r t p
          ≡ Option.map
              (λ s. max_ℤ s (log_start_in broker.earliest t p))
              (offset_at (log_of (pos 3) (pos 11)) t p))
unfolding lookup
skip_evicted-evicted_example =
    skip_evicted-evicted (log_of (pos 3) (pos 11)) broker.earliest
      ((refl, tt), ((refl, (refl, tt)), tt))

abbrev hole : ℤ → ℤ → Hole
hole a b = record { topic = "k2.kraken"; partition = 0; first = a; last = b }

-- two abutting gaps explain one hole, and a hole one offset wider is reported
wider_hole :
    uncovered_holes
      (hole (pos 3) (pos 9) ∷ hole (pos 3) (pos 10) ∷ [])
      (hole (pos 6) (pos 9) ∷ hole (pos 3) (pos 5) ∷ [])
    ≡ hole (pos 3) (pos 10) ∷ []
unfolding uncovered_holes group_gaps holes_left is_covered walk range_before sort place lookup
    insert ◌+ℤ◌
wider_hole = refl

uncovered_holes-exact_example :
    All
      (λ h.
        Explained (hole (pos 3) (pos 5) ∷ []) h
        ⊎ Mem h (uncovered_holes (hole (pos 3) (pos 9) ∷ []) (hole (pos 3) (pos 5) ∷ [])))
      (hole (pos 3) (pos 9) ∷ [])
    × All
        (λ h. ¬ Explained (hole (pos 3) (pos 5) ∷ []) h)
        (uncovered_holes (hole (pos 3) (pos 9) ∷ []) (hole (pos 3) (pos 5) ∷ []))
uncovered_holes-exact_example =
    uncovered_holes-exact (hole (pos 3) (pos 9) ∷ []) (hole (pos 3) (pos 5) ∷ [])

abbrev ingested : Snapshot
ingested = record {
  committed_at = 7;
  summary = some (("k2.job", "ingest") ∷ ("k2.kafka-offsets", "{}") ∷ []);
}

abbrev compacted : Snapshot
compacted = record { committed_at = 9; summary = some (("operation", "replace") ∷ []) }

-- Python's functions, played by unary numerals and by values for their own text.
abbrev unary : ℕ → String
unary zero = ""
unary (suc n) = String.◌∷◌ "1" (unary n)

abbrev count_marks : String → ℕ
count_marks String.[] = 0
count_marks (String.◌∷◌ c s) = suc (count_marks s)

count_marks-unary : (n : ℕ) → count_marks (unary n) ≡ n
count_marks-unary zero = refl
count_marks-unary (suc n) = ap suc (count_marks-unary n)

abbrev python : Python
python = record {
  Text = Dict String (Dict String ℤ);
  dumps = λ d. d;
  loads = λ d. d;
  str = unary;
  int = count_marks;
  before = λ a b. false;
  loads-dumps = λ d. refl;
  int-str = count_marks-unary;
}

decode-encode_example :
    offset_at (decode python (encode python (log_of (pos 3) (pos 11)))) "k2.kraken" 1
    ≡ some (pos 11)
unfolding lookup
decode-encode_example =
    decode-encode python (log_of (pos 3) (pos 11)) "k2.kraken" 1
      ((refl, tt), ((refl, (refl, tt)), tt))

-- one offset absent and one written twice
abbrev balanced : Stored
balanced = record { topic = "k2.kraken"; partition = 0; first = 4; rest = 4 ∷ 6 ∷ [] }

abbrev gapped : Stored
gapped = record { topic = "k2.kraken"; partition = 1; first = 4; rest = 7 ∷ [] }

offset_gaps-unbalanced_example :
    map finding_of (offset_gaps (map row_of (balanced ∷ gapped ∷ [])))
    ≡ unbalanced (balanced ∷ gapped ∷ [])
offset_gaps-unbalanced_example =
    offset_gaps-unbalanced (balanced ∷ gapped ∷ [])
      ((omega arith, (omega arith, tt)), ((omega arith, tt), tt))
