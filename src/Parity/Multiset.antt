-- ===== src/Parity/Multiset.antt =====
-- What a passing Kraken symbol says of the records of the two tiers.
use k2_market_data_platform.Base.{
  ℕ, suc, ◌+◌, ◌≤◌, ◌≡◌, refl, String, true, none, List, [], ◌∷◌, map, get_or, if◌then◌else◌, arith,
}
use k2_market_data_platform.Base.Eq.{Eq, ◌=?◌, string_eq, int_eq, pair_eq}
use k2_market_data_platform.Base.Dict.{Dict, lookup, insert, lookup-insert}
use k2_market_data_platform.Parity.{
  Norm, SymbolStats, passed, edge_allowance, Bucket, ms_bucket_key, dedupe_by_id, tally, surplus,
  compare_multisets, side_allowance,
}

module _ {K : Type 0} ⦃e : Eq K⦄ where
  -- how often a key stands in a list
  abbrev pub occurrences : K → List K → ℕ
  occurrences k [] = 0
  occurrences k (x ∷ xs) = (if x =? k then 1 else 0) + occurrences k xs

  abbrev pub count_in : K → Dict K ℕ → ℕ
  count_in k c = get_or (lookup k c) 0

  tally-occurrences :
      (k : K) (c : Dict K ℕ) (keys : List K)
      → count_in k (tally c keys) ≡ count_in k c + occurrences k keys
  unfolding tally
  tally-occurrences k c [] = omega arith
  tally-occurrences k c (x ∷ keys) = ground (
    arith,
    tally-occurrences k (insert x (suc (get_or (lookup x c) 0)) c) keys,
    lookup-insert x k (suc (get_or (lookup x c) 0)) c,
    e.beq_iff x k,
  )

  -- the counter of a list
  tally-count : (k : K) (keys : List K) → count_in k (tally [] keys) ≡ occurrences k keys
  unfolding lookup
  tally-count k keys = omega (arith, tally-occurrences k [] keys)

  surplus_bound : (k : K) (c d : Dict K ℕ) → count_in k c ≤ count_in k d + surplus c d
  unfolding surplus lookup
  surplus_bound k [] d = omega arith
  surplus_bound k ((j, n) ∷ c) d = ground (arith, surplus_bound k c d, e.beq_iff j k)

passed-sides :
    (s : SymbolStats)
    → passed s ≡ true
    → s.mismatched ≡ none
    → (s.only_v2 ≤ edge_allowance) × (s.only_v3 ≤ edge_allowance)
unfolding passed side_allowance
passed-sides s h e = ground (arith, h, e)

-- Where ids are not joined and a symbol passes, every combination of price, quantity, side and
-- millisecond stands among the records of v2 and among the first copies of v3's ids equally often, but
-- for two at most.
pub compare_multisets-occurrences :
    (symbol : String) (v2 v3 : List Norm) (k : Bucket)
    → passed (compare_multisets symbol v2 v3) ≡ true
    → (occurrences k (map ms_bucket_key v2)
        ≤ occurrences k (map ms_bucket_key (map (λ e. e.1) (dedupe_by_id v3).by_id)) + 2)
      × (occurrences k (map ms_bucket_key (map (λ e. e.1) (dedupe_by_id v3).by_id))
          ≤ occurrences k (map ms_bucket_key v2) + 2)
unfolding compare_multisets
compare_multisets-occurrences symbol v2 v3 k h =
    let xs = map ms_bucket_key v2 in
    let ys = map ms_bucket_key (map (λ e. e.1) (dedupe_by_id v3).by_id) in
    let sides = passed-sides (compare_multisets symbol v2 v3) h refl in
    (
      omega (
        arith,
        sides.0,
        surplus_bound k (tally [] xs) (tally [] ys),
        tally-count k xs,
        tally-count k ys,
      ),
      omega (
        arith,
        sides.1,
        surplus_bound k (tally [] ys) (tally [] xs),
        tally-count k xs,
        tally-count k ys,
      ),
    )
