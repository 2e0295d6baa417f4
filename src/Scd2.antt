-- ===== src/Scd2.antt =====
-- docker/lake/scd2.py, and `_merge_dim` of docker/lake/gold.py: the versions of the gold dimensions.
-- A row is its natural key, its `subscribed` flag and its other columns; a version adds the five
-- bookkeeping columns. The hash function is Python's, and a parameter.
pub mod History
pub mod Merge
pub mod Tiling
pub mod Steps
pub mod Runs
pub mod Repeat
pub mod Interrupted
use k2_market_data_platform.Base.{
  ℕ, String, Bool, true, false, Option, none, some, List, [], ◌∷◌, ◌++◌, map, if◌then◌else◌,
}
use Prim.Native.String.{◌++◌ as concat}
use k2_market_data_platform.Base.Eq.{Eq, ◌=?◌, string_eq}
use k2_market_data_platform.Base.Dict.{Dict, lookup, insert}

-- seconds since 1970-01-01, and 9999-12-31 23:59:59
abbrev pub epoch : ℕ
epoch = 0

abbrev pub forever : ℕ
forever = 253402300799

pub data Value : Type 0 where
  null : Value
  flag : Bool → Value
  -- a text, or the digits of an exact decimal
  text : String → Value

pub record Row (K : Type 0) : Type 0 where
  pub key : K
  pub subscribed : Bool
  pub columns : Dict String Value

pub record Version (K : Type 0) : Type 0 where
  pub row : Row K
  pub hash : String
  pub valid_from : ℕ
  pub valid_to : ℕ
  pub is_current : Bool
  pub recorded_at : ℕ

-- U+001F between the cells, and U+0000 for a cell that is None
abbrev pub separator : String
separator = "\u{1f}"

abbrev pub null_mark : String
null_mark = "\0"

-- `str(row[f])`, or the mark
unfoldable pub render : Value → String
render null = null_mark
render (flag true) = "True"
render (flag false) = "False"
render (text s) = s

unfoldable pub cell : {K : Type 0} → Row K → String → Value
cell row f =
    if f =? "subscribed"
    then flag row.subscribed
    else elim (lookup f row.columns) [ none ↦ null | some v ↦ v ]

-- `_SEP.join(parts)`
unfoldable pub join : List String → String
join [] = ""
join (p ∷ []) = p
join (p ∷ q ∷ parts) = concat p (concat separator (join (q ∷ parts)))

-- `plan` returns the keys to close and the versions to append.
pub record Changes (K : Type 0) : Type 0 where
  pub close : List K
  pub fresh : List (Version K)

abbrev pub both : {K : Type 0} → Changes K → Changes K → Changes K
both a b = record { close = a.close ++ b.close; fresh = a.fresh ++ b.fresh }

module _ {K : Type 0} ⦃e : Eq K⦄ where
  -- `WHERE is_current`, keyed
  unfoldable pub open_versions : Dict K (Version K) → List (Version K) → Dict K (Version K)
  open_versions out [] = out
  open_versions out (v ∷ table) =
      open_versions (if v.is_current then insert v.row.key v out else out) table

  unfoldable pub contains : K → List K → Bool
  contains k [] = false
  contains k (x ∷ xs) = if x =? k then true else contains k xs

  -- the MERGE, on one row
  unfoldable pub close_version : List K → ℕ → Version K → Version K
  close_version close run_ts v =
      if v.is_current
      then if contains v.row.key close
        then record v { valid_to = run_ts; is_current = false }
        else v
      else v

  unfoldable pub merge_close : List K → ℕ → List (Version K) → List (Version K)
  merge_close close run_ts table = map (close_version close run_ts) table

module _ {K : Type 0} ⦃e : Eq K⦄ (sha256_32 : String → String) (tracked : List String) where
  unfoldable pub attr_hash : Row K → String
  attr_hash row = sha256_32 (join (map (λ f. render (cell row f)) tracked))

  unfoldable pub version : Row K → ℕ → ℕ → Version K
  version row valid_from run_ts = record {
    row = row;
    hash = attr_hash row;
    valid_from = valid_from;
    valid_to = forever;
    is_current = true;
    recorded_at = run_ts;
  }

  -- the first loop's body, for a row that is true now
  unfoldable pub now_true : Option (Version K) → K → Row K → ℕ → Changes K
  now_true none key row run_ts = record { close = []; fresh = version row epoch run_ts ∷ [] }
  now_true (some open_version) key row run_ts =
      if open_version.hash =? attr_hash row
      then record { close = []; fresh = [] }
      else record { close = key ∷ []; fresh = version row run_ts run_ts ∷ [] }

  -- the second loop's body, for an open version that the registry no longer has
  unfoldable pub now_gone : K → Version K → ℕ → Changes K
  now_gone key open_version run_ts =
      if open_version.row.subscribed
      then record {
        close = key ∷ [];
        fresh = version (record (open_version.row) { subscribed = false }) run_ts run_ts ∷ [];
      }
      else record { close = []; fresh = [] }

  unfoldable pub plan_current : Dict K (Version K) → Dict K (Row K) → ℕ → Changes K
  plan_current previous [] run_ts = record { close = []; fresh = [] }
  plan_current previous ((key, row) ∷ current) run_ts =
      both (now_true (lookup key previous) key row run_ts) (plan_current previous current run_ts)

  unfoldable pub plan_gone : Dict K (Row K) → Dict K (Version K) → ℕ → Changes K
  plan_gone current [] run_ts = record { close = []; fresh = [] }
  plan_gone current ((key, open_version) ∷ previous) run_ts =
      both
        (elim (lookup key current) [
          | some _ ↦ record { close = []; fresh = [] }
          | none ↦ now_gone key open_version run_ts
        ])
        (plan_gone current previous run_ts)

  unfoldable pub plan : Dict K (Version K) → Dict K (Row K) → ℕ → Changes K
  plan previous current run_ts =
      both (plan_current previous current run_ts) (plan_gone current previous run_ts)

  unfoldable pub changes_of : List (Version K) → Dict K (Row K) → ℕ → Changes K
  changes_of table current run_ts = plan (open_versions [] table) current run_ts

  -- Two commits: the close, then the append.
  unfoldable pub merge_dim : List (Version K) → Dict K (Row K) → ℕ → List (Version K)
  merge_dim table current run_ts =
      let c = changes_of table current run_ts in merge_close c.close run_ts table ++ c.fresh
