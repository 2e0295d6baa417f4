-- ===== src/Parity/Whole.antt =====
-- What an overall pass says of any two records.
use k2_market_data_platform.Base.{
  ◌≡◌, ◌⊎◌, refl, sym, ap, ◌∙◌, subst, String, Bool, true, false, none, some, List, [], ◌∷◌, ◌++◌,
  map, get_or, if◌then◌else◌, append_assoc, append-nil, All, Bool-cases, Option-cases, ◌≢◌, inl,
  inr, arith,
}
use k2_market_data_platform.Base.Eq.{◌=?◌, string_eq}
use k2_market_data_platform.Base.Dict.{Dict, lookup, insert, lookup-insert}
use k2_market_data_platform.Base.Sort.{sort, place}
use k2_market_data_platform.Base.Order.{text_before}
use k2_market_data_platform.Parity.{Norm, SymbolStats, passed, compare_symbol, compare_joined}
use k2_market_data_platform.Parity.Agreement.{Agree, compare_joined-Agree}
use k2_market_data_platform.Parity.Symbols.{
  group, keys, new_keys, symbols, is_joined, compare, all_passed, overall,
}

-- the records of one symbol
unfoldable pub of_symbol : String → List Norm → List Norm
of_symbol s [] = []
of_symbol s (n ∷ rows) =
    let rest = of_symbol s rows in if n.canonical_symbol =? s then n ∷ rest else rest

of_symbol-append :
    (s : String) (xs ys : List Norm) → of_symbol s (xs ++ ys) ≡ of_symbol s xs ++ of_symbol s ys
unfolding of_symbol
of_symbol-append s [] ys = refl
of_symbol-append s (n ∷ xs) ys = ground (arith, of_symbol-append s xs ys)

of_symbol-at :
    (s : String) (xs : List Norm) (a : Norm) (ys : List Norm)
    → a.canonical_symbol ≡ s
    → of_symbol s (xs ++ a ∷ ys) ≡ of_symbol s xs ++ a ∷ of_symbol s ys
unfolding of_symbol
of_symbol-at s xs a ys e =
    of_symbol-append s xs (a ∷ ys)
    ∙ ap (λ b. of_symbol s xs ++ (if b then a ∷ of_symbol s ys else of_symbol s ys))
        ((string_eq.beq_iff a.canonical_symbol s).1 e)

-- grouping is selecting
group-of_symbol :
    (s : String) (d : Dict String (List Norm)) (rows : List Norm)
    → get_or (lookup s (group d rows)) [] ≡ get_or (lookup s d) [] ++ of_symbol s rows
unfolding group of_symbol
group-of_symbol s d [] = sym (append-nil (get_or (lookup s d) []))
group-of_symbol s d (n ∷ rows) =
    let l = get_or (lookup n.canonical_symbol d) [] ++ n ∷ [] in
    group-of_symbol s (insert n.canonical_symbol l d) rows
    ∙ ap (λ o. get_or o [] ++ of_symbol s rows) (lookup-insert n.canonical_symbol s l d)
    ∙ either l (Bool-cases (n.canonical_symbol =? s))
  where
    either :
        (l : List Norm)
        → ((n.canonical_symbol =? s) ≡ true) ⊎ ((n.canonical_symbol =? s) ≡ false)
        → get_or
              (if n.canonical_symbol =? s
                then some (get_or (lookup n.canonical_symbol d) [] ++ n ∷ [])
                else lookup s d)
              []
            ++ of_symbol s rows
          ≡ get_or (lookup s d) []
            ++ (if n.canonical_symbol =? s then n ∷ of_symbol s rows else of_symbol s rows)
    either l (inl e) = rw e (
        append_assoc (get_or (lookup n.canonical_symbol d) []) (n ∷ []) (of_symbol s rows)
        ∙ ap (λ t. get_or (lookup t d) [] ++ n ∷ of_symbol s rows)
            ((string_eq.beq_iff n.canonical_symbol s).0 e))
    either l (inr e) = rw e refl

-- a symbol that a record has is a key
group-key :
    (s : String) (d : Dict String (List Norm)) (rows : List Norm)
    → lookup s (group d rows) ≡ none
    → (lookup s d ≡ none) × (of_symbol s rows ≡ [])
unfolding group of_symbol
group-key s d [] h = (h, refl)
group-key s d (n ∷ rows) h = ground (
  arith,
  h,
  group-key s (insert n.canonical_symbol (get_or (lookup n.canonical_symbol d) [] ++ n ∷ []) d) rows
      h,
  lookup-insert n.canonical_symbol s (get_or (lookup n.canonical_symbol d) [] ++ n ∷ []) d,
)

module _ (P : String → Type 0) where
  All-unplace : (x : String) (xs : List String) → All P (place text_before x xs) → P x × All P xs
  unfolding place
  All-unplace x [] h = (h.0, tt)
  All-unplace x (y ∷ ys) h = ground (arith, h, All-unplace x ys)

  All-unsort : (xs : List String) → All P (sort text_before xs) → All P xs
  unfolding sort
  All-unsort [] h = tt
  All-unsort (x ∷ xs) h =
      let (p, rest) = All-unplace x (sort text_before xs) h in (p, All-unsort xs rest)

  All-left : (xs ys : List String) → All P (xs ++ ys) → All P xs
  All-left [] ys h = tt
  All-left (x ∷ xs) ys h = (h.0, All-left xs ys h.1)

  keys-at :
      (s : String) (d : Dict String (List Norm)) (l : List Norm)
      → All P (keys d)
      → lookup s d ≡ some l
      → P s
  unfolding keys lookup
  keys-at s [] l h e = ground (arith, e)
  keys-at s ((t, m) ∷ d) l h e = elim (Bool-cases (t =? s)) [
    | inl same ↦ subst P ((string_eq.beq_iff t s).0 same) h.0
    | inr other ↦ keys-at s d l h.1 (ground (arith, e, other))
  ]

-- all that passes at a symbol
passed-at :
    (f : String → SymbolStats) (xs : List String)
    → all_passed (map f xs) ≡ true
    → All (λ s. passed (f s) ≡ true) xs
unfolding all_passed
passed-at f [] h = tt
passed-at f (x ∷ xs) h = ground (arith, h, passed-at f xs)

grouped :
    (s : String) (xs : List Norm) (a : Norm) (ys : List Norm)
    → a.canonical_symbol ≡ s
    → get_or (lookup s (group [] (xs ++ a ∷ ys))) [] ≡ of_symbol s xs ++ a ∷ of_symbol s ys
unfolding lookup
grouped s xs a ys e = group-of_symbol s [] (xs ++ a ∷ ys) ∙ of_symbol-at s xs a ys e

cons_append : (xs : List Norm) (a : Norm) (ys : List Norm) → xs ++ a ∷ ys ≢ []
cons_append [] a ys e = ground (arith, e)
cons_append (x ∷ xs) a ys e = ground (arith, e)

-- the statistics of a symbol that a record of v2 has
compare-at :
    (v2 v3 : List Norm) (exchange : String) (s : String) (l : List Norm)
    → all_passed (compare v2 v3 exchange) ≡ true
    → lookup s (group [] v2) ≡ some l
    → passed (
        compare_symbol s
          (get_or (lookup s (group [] v2)) [])
          (get_or (lookup s (group [] v3)) [])
          (is_joined exchange))
      ≡ true
unfolding compare symbols
compare-at v2 v3 exchange s l h at =
    let left = group [] v2 in
    let right = group [] v3 in
    let f : String → SymbolStats = λ symbol.
      compare_symbol symbol (get_or (lookup symbol left) []) (get_or (lookup symbol right) [])
        (is_joined exchange) in
    let P : String → Type 0 = λ symbol. passed (f symbol) ≡ true in
    keys-at P s left l
      (All-left P (keys left) (new_keys left right) (
        All-unsort P (keys left ++ new_keys left right)
          (passed-at f (sort text_before (keys left ++ new_keys left right)) h)))
      at

-- When the run passes at an exchange whose ids are joined, any record of the one topic and any record
-- of the other that have the same symbol and the same id have the same price, quantity and side, and
-- times less than a millisecond apart. Whatever else the two topics hold, and in whatever order.
pub overall-Agree :
    (exchange : String) (truncated : Bool) (xs ys us vs : List Norm) (a b : Norm)
    → is_joined exchange ≡ true
    → overall (compare (xs ++ a ∷ ys) (us ++ b ∷ vs) exchange) truncated ≡ true
    → a.canonical_symbol ≡ b.canonical_symbol
    → a.trade_id ≡ b.trade_id
    → Agree a b
unfolding overall compare_symbol
overall-Agree exchange truncated xs ys us vs a b joined h same_symbol same_id =
    let v2 = xs ++ a ∷ ys in
    let v3 = us ++ b ∷ vs in
    let s = a.canonical_symbol in
    elim (Option-cases (lookup s (group [] v2))) [
      | inl absent ↦
          elim (cons_append (of_symbol s xs) a (of_symbol s ys)
            (sym (of_symbol-at s xs a ys refl) ∙ (group-key s [] v2 absent).1)) [ ]
      | inr (l, at) ↦
          compare_joined-Agree s (of_symbol s xs) (of_symbol s ys) (of_symbol s us) (of_symbol s vs)
            a b
            (subst (λ m. passed (compare_joined s m (of_symbol s us ++ b ∷ of_symbol s vs)) ≡ true)
              (grouped s xs a ys refl)
              (subst (λ m. passed (compare_joined s (get_or (lookup s (group [] v2)) []) m) ≡ true)
                (grouped s us b vs (sym same_symbol))
                (subst
                  (λ j.
                    passed (
                      compare_symbol s (get_or (lookup s (group [] v2)) [])
                        (get_or (lookup s (group [] v3)) []) j)
                    ≡ true)
                  joined (compare-at v2 v3 exchange s l (ground (arith, h)) at))))
            same_id
    ]
