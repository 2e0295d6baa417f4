-- ===== src/Parity.antt =====
-- scripts/parity/compare_trades.py: the comparison of the trades that two tiers wrote, from the
-- normalised records on, and its verdict.
pub mod Dedupe
pub mod Agreement
pub mod Completeness
pub mod Multiset
pub mod Symbols
pub mod Whole
pub mod Window
pub mod Reading
pub mod Finished
pub mod Quiet
pub mod Ending
use k2_market_data_platform.Base.{
  ℕ, zero, suc, ◌+◌, ◌-◌, ◌/◌, max, min, String, Bool, true, false, ◌&&◌, ◌||◌, not, Option, none,
  some, List, [], ◌∷◌, map, length, get_or, if◌then◌else◌, ltb, leb, ◌==◌,
}
use k2_market_data_platform.Base.Int.{ℤ, pos, negsuc, ◌-ℤ◌}
use k2_market_data_platform.Base.Eq.{Eq, ◌=?◌, string_eq, int_eq, pair_eq}
use k2_market_data_platform.Base.Dict.{Dict, lookup, insert}

abbrev pub max_ts_delta_us : ℕ
max_ts_delta_us = 1000

abbrev pub edge_allowance : ℕ
edge_allowance = 2

-- prices and quantities in 1e-8 units, the time in microseconds
pub record Norm : Type 0 where
  pub canonical_symbol : String
  pub trade_id : String
  pub price : ℤ
  pub qty : ℤ
  pub side : String
  pub exchange_ts_us : ℤ

pub record SymbolStats : Type 0 where
  pub symbol : String
  pub count_v2 : ℕ
  pub count_v3 : ℕ
  pub only_v2 : ℕ
  pub only_v3 : ℕ
  -- none where the ids are synthesised and not joined
  pub mismatched : Option ℕ
  pub max_delta : Option ℕ
  pub dup_v2 : ℕ
  pub dup_v3 : ℕ
  pub dup_inconsistent : ℕ

-- `abs(a - b)`
abbrev pub distance : ℕ → ℕ → ℕ
distance a b = max a b - min a b

abbrev pub abs_ℤ : ℤ → ℕ
abs_ℤ (pos n) = n
abs_ℤ (negsuc n) = suc n

-- `max(2, int(count * 0.001))`
unfoldable pub tolerance_for : ℕ → ℕ
tolerance_for count = max 2 (count / 1000)

unfoldable pub tolerance : SymbolStats → ℕ
tolerance s = tolerance_for (max s.count_v2 s.count_v3)

unfoldable pub side_allowance : SymbolStats → ℕ
side_allowance s = elim s.mismatched [ none ↦ edge_allowance | some n ↦ tolerance s ]

-- `x is not None and x >= bound`
abbrev pub at_least : Option ℕ → ℕ → Bool
at_least none bound = false
at_least (some n) bound = leb bound n

-- `not mismatched`: None and 0 both pass
abbrev pub is_clean : Option ℕ → Bool
is_clean none = true
is_clean (some n) = n == 0

abbrev pub same_bool : Bool → Bool → Bool
same_bool true b = b
same_bool false b = not b

unfoldable pub passed : SymbolStats → Bool
passed s =
    if same_bool (s.count_v2 == 0) (s.count_v3 == 0)
    then if at_least s.max_delta max_ts_delta_us
      then false
      else if not (s.dup_inconsistent == 0)
      then false
      else leb (distance s.count_v2 s.count_v3) (tolerance s)
        && leb s.only_v2 (side_allowance s)
        && leb s.only_v3 (side_allowance s)
        && is_clean s.mismatched
    else false

-- `//` by 1000
unfoldable pub to_ms : ℤ → ℤ
to_ms (pos n) = pos (n / 1000)
to_ms (negsuc n) = negsuc (n / 1000)

abbrev pub Bucket : Type 0
Bucket = (ℤ × ℤ) × (String × ℤ)

unfoldable pub ms_bucket_key : Norm → Bucket
ms_bucket_key n = ((n.price, n.qty), (n.side, to_ms n.exchange_ts_us))

pub record Deduped : Type 0 where
  pub by_id : Dict String Norm
  pub dup : ℕ
  pub inconsistent : ℕ

-- the two compared tuples are equal
unfoldable pub same_trade : Norm → Norm → Bool
same_trade a b =
    a.price =? b.price && a.qty =? b.qty && a.side =? b.side && a.exchange_ts_us =? b.exchange_ts_us

-- the loop's body, from what the dict holds of the id
unfoldable pub note_record : Deduped → Norm → Deduped
note_record d n = elim (lookup n.trade_id d.by_id) [
  | none ↦ record d { by_id = insert n.trade_id n d.by_id }
  | some first ↦ record d {
    dup = suc d.dup;
    inconsistent = if same_trade first n then d.inconsistent else suc d.inconsistent;
  }
]

unfoldable pub note_records : Deduped → List Norm → Deduped
note_records d [] = d
note_records d (n ∷ rows) = note_records (note_record d n) rows

abbrev pub no_records : Deduped
no_records = record { by_id = []; dup = 0; inconsistent = 0 }

unfoldable pub dedupe_by_id : List Norm → Deduped
dedupe_by_id rows = note_records no_records rows

-- `Counter(keys)`
unfoldable pub tally : {K : Type 0} → ⦃e : Eq K⦄ → Dict K ℕ → List K → Dict K ℕ
tally c [] = c
tally c (k ∷ keys) = tally (insert k (suc (get_or (lookup k c) 0)) c) keys

-- `sum((c - d).values())`: subtraction keeps the positive counts alone
unfoldable pub surplus : {K : Type 0} → ⦃e : Eq K⦄ → Dict K ℕ → Dict K ℕ → ℕ
surplus [] d = 0
surplus ((k, n) ∷ c) d = (n - get_or (lookup k d) 0) + surplus c d

-- the loops over the ids: `keys() - keys()`, and the two over the common ids
unfoldable pub only_in : Dict String Norm → Dict String Norm → ℕ
only_in [] e = 0
only_in ((t, n) ∷ d) e = elim (lookup t e) [ none ↦ suc (only_in d e) | some m ↦ only_in d e ]

unfoldable pub mismatches : Dict String Norm → Dict String Norm → ℕ
mismatches [] e = 0
mismatches ((t, n) ∷ d) e =
    let rest = mismatches d e in
    elim (lookup t e) [
      | none ↦ rest
      | some m ↦ if n.price =? m.price && n.qty =? m.qty && n.side =? m.side then rest else suc rest
    ]

-- the larger of what there is
abbrev pub larger : Option ℕ → ℕ → Option ℕ
larger none n = some n
larger (some m) n = some (max m n)

unfoldable pub max_ts_delta : Dict String Norm → Dict String Norm → Option ℕ
max_ts_delta [] e = none
max_ts_delta ((t, n) ∷ d) e = elim (lookup t e) [
  | none ↦ max_ts_delta d e
  | some m ↦ larger (max_ts_delta d e) (abs_ℤ (n.exchange_ts_us -ℤ m.exchange_ts_us))
]

unfoldable pub compare_joined : String → List Norm → List Norm → SymbolStats
compare_joined symbol v2 v3 =
    let a = dedupe_by_id v2 in
    let b = dedupe_by_id v3 in
    record {
      symbol = symbol;
      count_v2 = length a.by_id;
      count_v3 = length b.by_id;
      only_v2 = only_in a.by_id b.by_id;
      only_v3 = only_in b.by_id a.by_id;
      mismatched = some (mismatches a.by_id b.by_id);
      max_delta = max_ts_delta a.by_id b.by_id;
      dup_v2 = a.dup;
      dup_v3 = b.dup;
      dup_inconsistent = a.inconsistent + b.inconsistent;
    }

-- Kraken's path: ids of v2 are synthesised, so that the two sides are multisets
unfoldable pub compare_multisets : String → List Norm → List Norm → SymbolStats
compare_multisets symbol v2 v3 =
    let b = dedupe_by_id v3 in
    let unique = map (λ e. e.1) b.by_id in
    let c2 = tally [] (map ms_bucket_key v2) in
    let c3 = tally [] (map ms_bucket_key unique) in
    record {
      symbol = symbol;
      count_v2 = length v2;
      count_v3 = length unique;
      only_v2 = surplus c2 c3;
      only_v3 = surplus c3 c2;
      mismatched = none;
      max_delta = none;
      dup_v2 = length v2 - length (dedupe_by_id v2).by_id;
      dup_v3 = b.dup;
      dup_inconsistent = b.inconsistent;
    }

unfoldable pub compare_symbol : String → List Norm → List Norm → Bool → SymbolStats
compare_symbol symbol v2 v3 join_on_id =
    if join_on_id then compare_joined symbol v2 v3 else compare_multisets symbol v2 v3
