-- ===== src/Offsets/Continuity.antt =====
-- docker/lake/offsets.py: `offset_gaps`, the continuity test of the nightly audit, against the
-- offsets that a partition holds. The two texts of a failure are kept as the values they print.
use k2_market_data_platform.Base.{
  ℕ, suc, ◌+◌, ◌-◌, ◌≤◌, String, ◌≡◌, refl, List, [], ◌∷◌, map, All, length, arith, ltb,
  if◌then◌else◌, ◌==◌,
}
use k2_market_data_platform.Base.Int.{
  ℤ, pos, pos_part, neg_part, ◌+ℤ◌, ◌-ℤ◌, ◌==ℤ◌, ltb_ℤ, int_laws, +ℤ_parts, -ℤ_parts,
}

-- `(topic, partition, n_rows, min_offset, max_offset)`
pub record GapRow : Type 0 where
  pub topic : String
  pub partition : ℕ
  pub n_rows : ℤ
  pub min_offset : ℤ
  pub max_offset : ℤ

pub data Verdict : Type 0 where
  missing duplicated : Verdict

-- the values in "offsets {}..{} span {} records but {} rows are present ({})"
pub record Detail : Type 0 where
  pub min_offset : ℤ
  pub max_offset : ℤ
  pub expected : ℤ
  pub n_rows : ℤ
  pub verdict : Verdict

pub record Failure : Type 0 where
  pub scope : String × ℕ
  pub observed : ℤ
  pub detail : Detail

abbrev pub expected_of : GapRow → ℤ
expected_of r = r.max_offset -ℤ r.min_offset +ℤ pos 1

unfoldable pub failure_of : GapRow → Failure
failure_of r = record {
  scope = (r.topic, r.partition);
  observed = expected_of r -ℤ r.n_rows;
  detail = record {
    min_offset = r.min_offset;
    max_offset = r.max_offset;
    expected = expected_of r;
    n_rows = r.n_rows;
    verdict = if ltb_ℤ r.n_rows (expected_of r) then missing else duplicated;
  };
}

unfoldable pub offset_gaps : List GapRow → List Failure
offset_gaps [] = []
offset_gaps (r ∷ rows) =
    let rest = offset_gaps rows in if expected_of r ==ℤ r.n_rows then rest else failure_of r ∷ rest

-- A partition of `raw.messages`: its offsets in ascending order, the first apart.
pub record Stored : Type 0 where
  pub topic : String
  pub partition : ℕ
  pub first : ℕ
  pub rest : List ℕ

abbrev pub last_of : ℕ → List ℕ → ℕ
last_of x [] = x
last_of x (y ∷ ys) = last_of y ys

abbrev pub Ascending : ℕ → List ℕ → Type 0
Ascending x [] = Unit
Ascending x (y ∷ ys) = (x ≤ y) × Ascending y ys

-- how many offsets between the first and the last are not stored
abbrev pub absent : ℕ → List ℕ → ℕ
absent x [] = 0
absent x (y ∷ ys) = (y - (x + 1)) + absent y ys

-- how many rows repeat an offset
abbrev pub repeats : ℕ → List ℕ → ℕ
repeats x [] = 0
repeats x (y ∷ ys) = (if x == y then 1 else 0) + repeats y ys

-- the aggregate that the audit's query computes of a partition
abbrev pub row_of : Stored → GapRow
row_of s = record {
  topic = s.topic;
  partition = s.partition;
  n_rows = pos (suc (length s.rest));
  min_offset = pos s.first;
  max_offset = pos (last_of s.first s.rest);
}

span :
    (x : ℕ) (xs : List ℕ)
    → Ascending x xs
    → last_of x xs + 1 + repeats x xs ≡ x + suc (length xs) + absent x xs
span x [] h = omega arith
span x (y ∷ ys) h = ground (arith, span y ys h.1)

abbrev pub IsAscending : Stored → Type 0
IsAscending s = Ascending s.first s.rest

-- What the audit says of a partition: its scope, the number observed, and the verdict.
abbrev pub Finding : Type 0
Finding = (String × ℕ) × ℤ × Verdict

abbrev pub finding_of : Failure → Finding
finding_of f = (f.scope, f.observed, f.detail.verdict)

-- The partitions where the offsets that are absent and the rows that repeat differ in number.
abbrev pub unbalanced : List Stored → List Finding
unbalanced [] = []
unbalanced (s ∷ stored) =
    let gone = absent s.first s.rest in
    let twice = repeats s.first s.rest in
    let rest = unbalanced stored in
    if gone == twice
    then rest
    else (
      (s.topic, s.partition),
      pos gone -ℤ pos twice,
      if ltb twice gone then missing else duplicated,
    )
      ∷ rest

expected_parts :
    (s : Stored)
    → pos_part (expected_of (row_of s)) + s.first
      ≡ neg_part (expected_of (row_of s)) + last_of s.first s.rest + 1
expected_parts s = omega (
  arith,
  +ℤ_parts (pos (last_of s.first s.rest) -ℤ pos s.first) (pos 1),
  -ℤ_parts (pos (last_of s.first s.rest)) (pos s.first),
)

module _ (s : Stored) (h : IsAscending s) where
  observed_lem :
      expected_of (row_of s) -ℤ (row_of s).n_rows
      ≡ pos (absent s.first s.rest) -ℤ pos (repeats s.first s.rest)
  observed_lem = omega (int_laws, span s.first s.rest h)

  intact_lem :
      (expected_of (row_of s) ==ℤ (row_of s).n_rows)
      ≡ (absent s.first s.rest == repeats s.first s.rest)
  intact_lem = ground (arith, span s.first s.rest h, expected_parts s)

  verdict_lem :
      ltb_ℤ (row_of s).n_rows (expected_of (row_of s))
      ≡ ltb (repeats s.first s.rest) (absent s.first s.rest)
  verdict_lem = ground (arith, span s.first s.rest h, expected_parts s)

-- The audit reports a partition exactly when the number of offsets absent from its range is not
-- the number of rows that repeat one; it reports the difference, as missing when more are absent
-- and as duplicated when more repeat. A partition with as many of both passes.
pub offset_gaps-unbalanced :
    (stored : List Stored)
    → All IsAscending stored
    → map finding_of (offset_gaps (map row_of stored)) ≡ unbalanced stored
unfolding offset_gaps failure_of
offset_gaps-unbalanced [] h = refl
offset_gaps-unbalanced (s ∷ stored) h = ground (
  arith,
  offset_gaps-unbalanced stored h.1,
  observed_lem s h.0,
  intact_lem s h.0,
  verdict_lem s h.0,
)
