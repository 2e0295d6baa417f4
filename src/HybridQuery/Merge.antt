-- ===== src/HybridQuery/Merge.antt =====
-- What the merge of two answers holds.
use k2_market_data_platform.Base.{
  ℕ, zero, suc, ◌≤◌, ◌≡◌, refl, sym, ap, ◌∙◌, subst, ◌⊎◌, String, Bool, true, false, ◌&&◌,
  Bool-cases, inl, inr, Option-cases, none, some, List, [], ◌∷◌, ◌++◌, append_assoc, length,
  length-take-le, take, if◌then◌else◌, arith,
}
use k2_market_data_platform.Base.Eq.{◌=?◌, string_eq, beq_refl}
use k2_market_data_platform.Base.Sort.{sort, place}
use k2_market_data_platform.DegradationManager.{contains}
use k2_market_data_platform.Base.Eq.{given}
use k2_market_data_platform.HybridQuery.{
  TradeRecord, is_text, is_instant, all_of, compares, earlier, sort_by_timestamp, dedupe, limited,
  merge_results,
}

and_false : (b : Bool) → (b && false) ≡ false
and_false b = ground arith

module _ {D : Type 0} where
  abbrev has_id : String → TradeRecord D → Bool
  has_id i r = elim (given r.message_id) [ none ↦ false | some j ↦ j =? i ]

  -- the records with an id
  abbrev pub with_id : String → List (TradeRecord D) → List (TradeRecord D)
  with_id i [] = []
  with_id i (r ∷ rs) = if has_id i r then r ∷ with_id i rs else with_id i rs

  -- the records without one
  abbrev pub without_id : List (TradeRecord D) → List (TradeRecord D)
  without_id [] = []
  without_id (r ∷ rs) = elim (given r.message_id) [
    | none ↦ r ∷ without_id rs
    | some j ↦ without_id rs
  ]

  -- An id that was seen does not come again; of any other id the first record comes.
  dedupe-with_id :
      (seen : List String) (rs : List (TradeRecord D)) (i : String)
      → with_id i (dedupe seen rs) ≡ (if contains i seen then [] else take 1 (with_id i rs))
  unfolding dedupe contains
  dedupe-with_id seen [] i = ground arith
  dedupe-with_id seen (r ∷ rs) i = elim (Option-cases (given r.message_id)) [
    | inl none_given ↦
        rw (none_given, dedupe) (ground (arith, dedupe-with_id seen rs i, none_given))
    | inr (j, e) ↦
        rw (e, dedupe)
          (ground (
            arith,
            dedupe-with_id seen rs i,
            dedupe-with_id (j ∷ seen) rs i,
            string_eq.beq_iff j i,
            e,
          ))
  ]

  dedupe-without_id :
      (seen : List String) (rs : List (TradeRecord D)) → without_id (dedupe seen rs) ≡ without_id rs
  unfolding dedupe
  dedupe-without_id seen [] = refl
  dedupe-without_id seen (r ∷ rs) = elim (Option-cases (given r.message_id)) [
    | inl none_given ↦
        rw (none_given, dedupe) (ground (arith, dedupe-without_id seen rs, none_given))
    | inr (j, e) ↦
        rw (e, dedupe)
          (ground (arith, dedupe-without_id seen rs, dedupe-without_id (j ∷ seen) rs, e))
  ]

  -- Sorting keeps the records of an id, where there is one at most.
  place-with_id :
      (i : String) (r : TradeRecord D) (rs : List (TradeRecord D))
      → length (with_id i (r ∷ rs)) ≤ 1
      → with_id i (place earlier r rs) ≡ with_id i (r ∷ rs)
  unfolding place
  place-with_id i r [] h = refl
  place-with_id i r (q ∷ rs) h = ground (arith, h, place-with_id i r rs)

  sort-with_id :
      (i : String) (rs : List (TradeRecord D))
      → length (with_id i rs) ≤ 1
      → with_id i (sort earlier rs) ≡ with_id i rs
  unfolding sort
  sort-with_id i [] h = refl
  sort-with_id i (r ∷ rs) h =
      ground (arith, h, sort-with_id i rs, place-with_id i r (sort earlier rs))

  with_id-append :
      (i : String) (xs ys : List (TradeRecord D))
      → with_id i (xs ++ ys) ≡ with_id i xs ++ with_id i ys
  with_id-append i [] ys = refl
  with_id-append i (x ∷ xs) ys = ground (arith, with_id-append i xs ys)

  take-with_id :
      (i : String) (n : ℕ) (xs : List (TradeRecord D))
      → length (with_id i xs) ≤ 1
      → (with_id i (take n xs) ≡ with_id i xs)
        ⊎ ((with_id i (take n xs) ≡ []) × (length (take n xs) ≡ n))
  take-with_id i zero xs h = inr (refl, refl)
  take-with_id i (suc n) [] h = inl refl
  take-with_id i (suc n) (x ∷ xs) h = ground (arith, h, take-with_id i n xs)

  -- what a merge that returns has taken
  merge_results-takes :
      (xs ys out : List (TradeRecord D)) (limit : ℕ)
      → merge_results xs ys limit ≡ some out
      → out ≡ take limit (sort earlier (dedupe [] (xs ++ ys)))
  unfolding merge_results sort_by_timestamp
  merge_results-takes xs ys out limit h = taken (compares (dedupe [] (xs ++ ys))) _ h
    where
      taken :
          (b : Bool) (zs : List (TradeRecord D))
          → limited limit (if b then some zs else none) ≡ some out
          → out ≡ take limit zs
      taken true zs h = cc
      taken false zs h = cc

  -- Where a merge returns, it answers no more records than the limit; and for each message id one
  -- record, the first that Iceberg gave with this id, or else the first that Kafka gave, or none
  -- where the limit is used up.
  pub merge_results-once :
      (iceberg_results kafka_results out : List (TradeRecord D)) (limit : ℕ) (i : String)
      → merge_results iceberg_results kafka_results limit ≡ some out
      → (length out ≤ limit)
        × ((with_id i out ≡ take 1 (with_id i iceberg_results ++ with_id i kafka_results))
            ⊎ ((with_id i out ≡ []) × (length out ≡ limit)))
  unfolding contains
  merge_results-once xs ys out limit i h =
      let taken = merge_results-takes xs ys out limit h in
      let sorted = sort earlier (dedupe [] (xs ++ ys)) in
      let deduped = dedupe-with_id [] (xs ++ ys) i in
      let few = length-take-le 1 (with_id i (xs ++ ys)) in
      let same =
        sort-with_id i (dedupe [] (xs ++ ys)) (omega (arith, ap length deduped, few)) ∙ deduped in
      (
        omega (arith, ap length taken, length-take-le limit sorted),
        elim (take-with_id i limit sorted (omega (arith, ap length same, few))) [
          | inl all ↦ inl (ap (with_id i) taken ∙ all ∙ same ∙ ap (take 1) (with_id-append i xs ys))
          | inr (none_there, full) ↦ inr (ap (with_id i) taken ∙ none_there, ap length taken ∙ full)
        ],
      )

  text_not_instant : (r : TradeRecord D) → is_text r ≡ true → is_instant r ≡ false
  text_not_instant r h = ground (arith, h)

  instant_not_text : (r : TradeRecord D) → is_instant r ≡ true → is_text r ≡ false
  instant_not_text r h = ground (arith, h)

  text_there :
      (i : String) (rs : List (TradeRecord D)) (y : TradeRecord D)
      → with_id i rs ≡ y ∷ []
      → is_text y ≡ true
      → (all_of is_instant rs ≡ false) × (1 ≤ length rs)
  text_there i [] y h k = cc
  text_there i (r ∷ rs) y h k = elim (Bool-cases (has_id i r)) [
    | inl same ↦
        (rw (text_not_instant r (ap is_text (first (subst branches same h)) ∙ k)) refl, omega arith)
    | inr other ↦
        let rest = text_there i rs y (subst branches other h) k in
        (rw rest.0 (and_false (is_instant r)), omega arith)
  ]
    where
      branches : Bool → Type 0
      branches b = (if b then r ∷ with_id i rs else with_id i rs) ≡ y ∷ []

      first : r ∷ with_id i rs ≡ y ∷ [] → r ≡ y
      first e = cc

  dedupe-head :
      (x : TradeRecord D) (rs : List (TradeRecord D))
      → (ds : List (TradeRecord D)) × (dedupe [] (x ∷ rs) ≡ x ∷ ds)
  unfolding dedupe contains
  dedupe-head x rs = elim (Option-cases (given x.message_id)) [
    | inl none_given ↦ (dedupe [] rs, rw (none_given, dedupe) refl)
    | inr (j, e) ↦ (dedupe (j ∷ []) rs, rw (e, dedupe) refl)
  ]

  -- A record of Kafka's, whose time is a text, and a timestamp of Iceberg's do not compare: where
  -- Iceberg has answered rows and Kafka a record whose id is not among them, the merge raises.
  pub merge_results-raises :
      (x : TradeRecord D) (xs pre post : List (TradeRecord D)) (y : TradeRecord D) (i : String)
      (limit : ℕ)
      → all_of is_instant (x ∷ xs) ≡ true
      → is_text y ≡ true
      → given y.message_id ≡ some i
      → with_id i (x ∷ xs ++ pre) ≡ []
      → merge_results (x ∷ xs) (pre ++ y ∷ post) limit ≡ none
  unfolding merge_results sort_by_timestamp contains
  merge_results-raises x xs pre post y i limit hx hy hi absent =
      let head = dedupe-head x (xs ++ (pre ++ y ∷ post)) in
      rw (mixed head.0 head.1, merge_results) refl
    where
      by_test :
          (b : Bool) → b ≡ true → take 1 (if b then y ∷ with_id i post else with_id i post) ≡ y ∷ []
      by_test b e = rw e refl

      here : take 1 (with_id i (y ∷ post)) ≡ y ∷ []
      here = by_test (has_id i y) (ground (arith, hi, beq_refl i))

      found : with_id i (dedupe [] (x ∷ (xs ++ (pre ++ y ∷ post)))) ≡ y ∷ []
      found =
          dedupe-with_id [] (x ∷ (xs ++ (pre ++ y ∷ post))) i
          ∙ ap (λ rs. take 1 (with_id i rs)) (sym (append_assoc (x ∷ xs) pre (y ∷ post)))
          ∙ ap (take 1) (with_id-append i (x ∷ xs ++ pre) (y ∷ post))
          ∙ ap (λ rs. take 1 (rs ++ with_id i (y ∷ post))) absent
          ∙ here

      not_first :
          (b : Bool) (rs qs : List (TradeRecord D)) → (if b then x ∷ rs else qs) ≡ [] → b ≡ false
      not_first true rs qs e = cc
      not_first false rs qs e = refl

      later : (b : Bool) (rs : List (TradeRecord D)) → b ≡ false → (if b then x ∷ rs else rs) ≡ rs
      later b rs e = rw e refl

      mixed :
          (ds : List (TradeRecord D))
          → dedupe [] (x ∷ (xs ++ (pre ++ y ∷ post))) ≡ x ∷ ds
          → compares (dedupe [] (x ∷ (xs ++ (pre ++ y ∷ post)))) ≡ false
      mixed ds e =
          let others =
            text_there i ds y
              (sym (later _ (with_id i ds) (not_first _ _ _ absent))
                ∙ ap (with_id i) (sym e)
                ∙ found)
              hy in
          ap compares e ∙ ground (arith, others, hx, instant_not_text x)
