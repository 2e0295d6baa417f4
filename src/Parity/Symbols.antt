-- ===== src/Parity/Symbols.antt =====
-- `compare`, which groups the records of the two tiers by symbol, and the verdict that the exit code
-- gives.
use k2_market_data_platform.Base.{
  String, Bool, true, ◌&&◌, not, none, some, List, [], ◌∷◌, ◌++◌, map, get_or,
}
use k2_market_data_platform.Base.Eq.{◌=?◌, string_eq}
use k2_market_data_platform.Base.Dict.{Dict, lookup, insert}
use k2_market_data_platform.Base.Sort.{sort}
use k2_market_data_platform.Base.Order.{text_before}
use k2_market_data_platform.Parity.{Norm, SymbolStats, passed, compare_symbol}

-- `defaultdict(list)` and its `append`
unfoldable pub group : Dict String (List Norm) → List Norm → Dict String (List Norm)
group d [] = d
group d (n ∷ rows) =
    group (insert n.canonical_symbol (get_or (lookup n.canonical_symbol d) [] ++ n ∷ []) d) rows

unfoldable pub keys : Dict String (List Norm) → List String
keys [] = []
keys ((s, rows) ∷ d) = s ∷ keys d

-- the keys of one dict that the other has not
unfoldable pub new_keys : Dict String (List Norm) → Dict String (List Norm) → List String
new_keys d [] = []
new_keys d ((s, rows) ∷ e) = elim (lookup s d) [ none ↦ s ∷ new_keys d e | some l ↦ new_keys d e ]

-- `sorted(left.keys() | right.keys())`
unfoldable pub symbols : Dict String (List Norm) → Dict String (List Norm) → List String
symbols left right = sort text_before (keys left ++ new_keys left right)

-- `exchange not in SYNTHETIC_V2_ID_EXCHANGES`
abbrev pub is_joined : String → Bool
is_joined exchange = not (exchange =? "kraken")

unfoldable pub compare : List Norm → List Norm → String → List SymbolStats
compare v2 v3 exchange =
    let left = group [] v2 in
    let right = group [] v3 in
    map
      (λ symbol.
        compare_symbol symbol (get_or (lookup symbol left) []) (get_or (lookup symbol right) [])
          (is_joined exchange))
      (symbols left right)

-- `all(s.passed for s in stats)`
unfoldable pub all_passed : List SymbolStats → Bool
all_passed [] = true
all_passed (s ∷ stats) = passed s && all_passed stats

-- `overall`
unfoldable pub overall : List SymbolStats → Bool → Bool
overall stats truncated = all_passed stats && not truncated
