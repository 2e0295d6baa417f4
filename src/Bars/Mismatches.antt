-- ===== src/Bars/Mismatches.antt =====
-- `bars_mismatches` of docker/lake/bars.py: recomputed bars against the stored ones.
use k2_market_data_platform.Base.{
  ℕ, ◌≡◌, refl, sym, ap, ◌∙◌, subst, String, Bool, true, false, ◌&&◌, not, Option, none, some, List,
  [], ◌∷◌, ◌++◌, length, take, if◌then◌else◌, ltb, ◌==◌, Bool-cases, prefer, inl, inr, arith,
}
use k2_market_data_platform.Base.Eq.{◌=?◌, string_eq, nat_eq, pair_eq, beq_eq}
use k2_market_data_platform.Base.Dict.{Dict, lookup, insert, lookup-insert}
use k2_market_data_platform.Base.Sort.{sort, length-sort}
use k2_market_data_platform.Base.Order.{by_text}

-- exchange, symbol, kind and number
abbrev pub RowKey : Type 0
RowKey = ((String × String) × String) × ℕ

-- the columns that are compared
pub record Columns : Type 0 where
  pub open_e8 : ℕ
  pub high_e8 : ℕ
  pub low_e8 : ℕ
  pub close_e8 : ℕ
  pub volume_e8 : ℕ
  pub quote_volume_e8 : ℕ
  pub trade_count : ℕ

-- `{tuple(r[c] for c in KEY_COLUMNS): r for r in rows}`
unfoldable pub by_key : Dict RowKey Columns → List (RowKey × Columns) → Dict RowKey Columns
by_key d [] = d
by_key d ((k, r) ∷ rows) = by_key (insert k r d) rows

unfoldable pub same_columns : Columns → Columns → Bool
same_columns a b =
    a.open_e8 == b.open_e8
    && a.high_e8 == b.high_e8
    && a.low_e8 == b.low_e8
    && a.close_e8 == b.close_e8
    && a.volume_e8 == b.volume_e8
    && a.quote_volume_e8 == b.quote_volume_e8
    && a.trade_count == b.trade_count

-- what makes a key of either side bad
abbrev pub is_bad : Option Columns → Option Columns → Bool
is_bad none stored = true
is_bad (some a) none = true
is_bad (some a) (some b) = not (same_columns a b)

unfoldable pub bad_keys : Dict RowKey Columns → Dict RowKey Columns → List RowKey → List RowKey
bad_keys fresh stored [] = []
bad_keys fresh stored (k ∷ ks) =
    let rest = bad_keys fresh stored ks in
    if is_bad (lookup k fresh) (lookup k stored) then k ∷ rest else rest

unfoldable pub keys_of : Dict RowKey Columns → List RowKey
keys_of [] = []
keys_of ((k, r) ∷ d) = k ∷ keys_of d

-- `fresh.keys() | stored.keys()`: the keys of one, then those of the other that it has not
unfoldable pub other_keys : Dict RowKey Columns → Dict RowKey Columns → List RowKey
other_keys fresh [] = []
other_keys fresh ((k, r) ∷ d) = elim (lookup k fresh) [
  | none ↦ k ∷ other_keys fresh d
  | some a ↦ other_keys fresh d
]

abbrev pub key_before : RowKey → RowKey → Bool
key_before j k =
    by_text j.0.0.0 k.0.0.0 (by_text j.0.0.1 k.0.0.1 (by_text j.0.1 k.0.1 (ltb j.1 k.1)))

unfoldable pub bad_rows : Dict RowKey Columns → Dict RowKey Columns → List RowKey
bad_rows fresh stored =
    sort key_before (bad_keys fresh stored (keys_of fresh ++ other_keys fresh stored))

unfoldable pub bars_mismatches : List (RowKey × Columns) → List (RowKey × Columns) → ℕ × List RowKey
bars_mismatches fresh_rows stored_rows =
    let bad = bad_rows (by_key [] fresh_rows) (by_key [] stored_rows) in (length bad, take 5 bad)

-- the last of the rows with a key
unfoldable pub last_row : RowKey → List (RowKey × Columns) → Option Columns
last_row k [] = none
last_row k ((j, r) ∷ rows) = prefer (last_row k rows) (if j =? k then some r else none)

lookup-by_key :
    (k : RowKey) (d : Dict RowKey Columns) (rows : List (RowKey × Columns))
    → lookup k (by_key d rows) ≡ prefer (last_row k rows) (lookup k d)
unfolding by_key last_row
lookup-by_key k d [] = refl
lookup-by_key k d ((j, r) ∷ rows) =
    lookup-by_key k (insert j r d) rows
    ∙ ap (prefer (last_row k rows)) (lookup-insert j k r d)
    ∙ later (last_row k rows) (j =? k)
  where
    later :
        (o : Option Columns) (b : Bool)
        → prefer o (if b then some r else lookup k d)
          ≡ prefer (prefer o (if b then some r else none)) (lookup k d)
    later (some a) b = refl
    later none true = refl
    later none false = refl

held_by_key :
    (k : RowKey) (rows : List (RowKey × Columns)) → lookup k (by_key [] rows) ≡ last_row k rows
unfolding lookup
held_by_key k rows = lookup-by_key k [] rows ∙ or_none (last_row k rows)
  where
    or_none : (o : Option Columns) → prefer o none ≡ o
    or_none none = refl
    or_none (some a) = refl

-- the columns that are compared are all there are
same_columns-equal : (a b : Columns) → same_columns a b ≡ true → a ≡ b
unfolding same_columns
same_columns-equal a b h = ground (arith, h)

abbrev is_in : RowKey → List RowKey → Bool
is_in k [] = false
is_in k (j ∷ js) = if j =? k then true else is_in k js

no_bad :
    (fresh stored : Dict RowKey Columns) (ks : List RowKey) (k : RowKey)
    → length (bad_keys fresh stored ks) ≡ 0
    → is_in k ks ≡ true
    → is_bad (lookup k fresh) (lookup k stored) ≡ false
unfolding bad_keys
no_bad fresh stored [] k h i = ground (arith, i)
no_bad fresh stored (j ∷ js) k h i = elim (Bool-cases (j =? k)) [
  | inl same ↦
      subst (λ x. is_bad (lookup x fresh) (lookup x stored) ≡ false) (beq_eq j k same)
        (ground (arith, h))
  | inr other ↦ no_bad fresh stored js k (ground (arith, h)) (ground (arith, i, other))
]

is_in-left : (k : RowKey) (xs ys : List RowKey) → is_in k xs ≡ true → is_in k (xs ++ ys) ≡ true
is_in-left k [] ys h = ground (arith, h)
is_in-left k (x ∷ xs) ys h = ground (arith, h, is_in-left k xs ys)

is_in-right : (k : RowKey) (xs ys : List RowKey) → is_in k ys ≡ true → is_in k (xs ++ ys) ≡ true
is_in-right k [] ys h = h
is_in-right k (x ∷ xs) ys h = ground (arith, is_in-right k xs ys h)

keys_of-in :
    (k : RowKey) (d : Dict RowKey Columns) (a : Columns)
    → lookup k d ≡ some a
    → is_in k (keys_of d) ≡ true
unfolding lookup keys_of
keys_of-in k [] a h = ground (arith, h)
keys_of-in k ((j, r) ∷ d) a h = ground (arith, h, keys_of-in k d a)

other_keys-in :
    (k : RowKey) (fresh d : Dict RowKey Columns) (b : Columns)
    → lookup k fresh ≡ none
    → lookup k d ≡ some b
    → is_in k (other_keys fresh d) ≡ true
unfolding lookup other_keys
other_keys-in k fresh [] b e h = ground (arith, h)
other_keys-in k fresh ((j, r) ∷ d) b e h = elim (Bool-cases (j =? k)) [
  | inl same ↦
      let absent = ap (λ x. lookup x fresh) (beq_eq j k same) ∙ e in
      rw (absent, other_keys) (rw same refl)
  | inr other ↦ ground (arith, other, other_keys-in k fresh d b e (ground (arith, h, other)))
]

-- neither side holds a key that is bad
none_bad :
    (fresh stored : Dict RowKey Columns) (k : RowKey) (o s : Option Columns)
    → length (bad_keys fresh stored (keys_of fresh ++ other_keys fresh stored)) ≡ 0
    → lookup k fresh ≡ o
    → lookup k stored ≡ s
    → o ≡ s
none_bad fresh stored k none none h e e' = refl
none_bad fresh stored k none (some b) h e e' = ground (
  arith,
  e,
  no_bad fresh stored (keys_of fresh ++ other_keys fresh stored) k h (
      is_in-right k (keys_of fresh) (other_keys fresh stored)
        (other_keys-in k fresh stored b e e')),
)
none_bad fresh stored k (some a) s h e e' = either s (
    subst (λ o. is_bad o s ≡ false) e
      (subst (λ o. is_bad (lookup k fresh) o ≡ false) e'
        (no_bad fresh stored (keys_of fresh ++ other_keys fresh stored) k h
          (is_in-left k (keys_of fresh) (other_keys fresh stored) (keys_of-in k fresh a e)))))
  where
    either : (s : Option Columns) → is_bad (some a) s ≡ false → some a ≡ s
    either none q = ground (arith, q)
    either (some b) q = ap some (same_columns-equal a b (ground (arith, q)))

-- Where no mismatch is counted, the two sides agree at every key: the last recomputed row with the
-- key and the last stored one have the same compared columns, all seven, or neither side has a row
-- with it.
pub bars_mismatches-same :
    (fresh_rows stored_rows : List (RowKey × Columns)) (k : RowKey)
    → (bars_mismatches fresh_rows stored_rows).0 ≡ 0
    → last_row k fresh_rows ≡ last_row k stored_rows
unfolding bars_mismatches bad_rows
bars_mismatches-same fresh_rows stored_rows k h =
    let fresh = by_key [] fresh_rows in
    let stored = by_key [] stored_rows in
    none_bad fresh stored k (last_row k fresh_rows) (last_row k stored_rows)
      (sym (
          length-sort key_before (bad_keys fresh stored (keys_of fresh ++ other_keys fresh stored)))
        ∙ h)
      (held_by_key k fresh_rows) (held_by_key k stored_rows)
