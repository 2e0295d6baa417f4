-- ===== src/Offsets/Holes/Exact.antt =====
-- Which holes the audit reports.
use mathlib.Core.List.{Mem, mem-cons_self, mem-cons_of_mem}
use mathlib.Core.Bool.{false≢true}
use k2_market_data_platform.Base.{
  ℕ, String, ◌≡◌, ◌∙◌, refl, sym, ap, subst, ◌⊎◌, inl, inr, ◌↔◌, true, Bool-cases, Option, List, [],
  ◌∷◌, ◌++◌, append-nil, append_assoc, All, arith, get_or, if◌then◌else◌,
}
use k2_market_data_platform.Base.Int.{ℤ, ◌≤ℤ◌, ltb_ℤ}
use k2_market_data_platform.Base.Eq.{◌=?◌, string_eq, nat_eq, pair_eq}
use k2_market_data_platform.Base.Dict.{lookup, insert, lookup-insert}
use k2_market_data_platform.Base.Sort.{sort}
use k2_market_data_platform.Offsets.Holes.{
  Hole, key_of, Covered, group_gaps, range_before, walk, is_covered, holes_left, uncovered_holes,
}
use k2_market_data_platform.Offsets.Holes.Walk.{
  InRanges, walk-forward, walk_sound, walk_complete, sort-StartsSorted, InRanges-sort,
}

-- the ranges that the gaps of one partition acknowledge
abbrev pub ranges_for : String × ℕ → List Hole → List (ℤ × ℤ)
ranges_for k [] = []
ranges_for k (g ∷ gaps) =
    let rest = ranges_for k gaps in if key_of g =? k then (g.first, g.last) ∷ rest else rest

-- Every offset of the hole lies in a recorded gap of its own partition.
abbrev pub Explained : List Hole → Hole → Type 0
Explained gaps h = (x : ℤ) → h.first ≤ℤ x → x ≤ℤ h.last → InRanges x (ranges_for (key_of h) gaps)

lookup-group_gaps :
    (k : String × ℕ) (covered : Covered) (gaps : List Hole)
    → get_or (lookup k (group_gaps covered gaps)) []
      ≡ get_or (lookup k covered) [] ++ ranges_for k gaps
unfolding group_gaps
lookup-group_gaps k covered [] = sym (append-nil (get_or (lookup k covered) []))
lookup-group_gaps k covered (g ∷ gaps) =
    let old = get_or (lookup (key_of g) covered) [] in
    let grown = insert (key_of g) (old ++ (g.first, g.last) ∷ []) covered in
    lookup-group_gaps k grown gaps
    ∙ ap (λ (o : Option (List (ℤ × ℤ))). get_or o [] ++ ranges_for k gaps)
        (lookup-insert (key_of g) k (old ++ (g.first, g.last) ∷ []) covered)
    ∙ elim (Bool-cases (key_of g =? k)) [
      | inl e ↦ rw e (
          append_assoc old ((g.first, g.last) ∷ []) (ranges_for k gaps)
          ∙ ap
              (λ (j : String × ℕ).
                get_or (lookup j covered) [] ++ (g.first, g.last) ∷ ranges_for k gaps)
              ((pair_eq.beq_iff (key_of g) k).0 e))
      | inr e ↦ rw e refl
    ]

-- A hole passes exactly when all of it is explained.
is_covered_iff :
    (gaps : List Hole) (h : Hole) → (is_covered (group_gaps [] gaps) h ≡ true) ↔ Explained gaps h
unfolding is_covered lookup
is_covered_iff gaps h =
    let ranges = get_or (lookup (key_of h) (group_gaps [] gaps)) [] in
    let same : ranges ≡ ranges_for (key_of h) gaps = lookup-group_gaps (key_of h) [] gaps in
    let end = walk h.first (sort range_before ranges) in
    (
      λ e x lo hi. subst (InRanges x) same (
          (InRanges-sort x ranges).0
            (walk_sound h.first x (sort range_before ranges) lo (ground arith))),
      λ all. elim (Bool-cases (ltb_ℤ h.last end)) [
        | inl e ↦ e
        | inr e ↦ absurd (
            walk_complete h.first (sort range_before ranges) (sort-StartsSorted ranges) (
              (InRanges-sort end ranges).1 (
                subst (InRanges end) (sym same)
                  (all end (walk-forward h.first (sort range_before ranges)) (ground arith)))))
      ],
    )

module _ (gaps : List Hole) where
  left-not-Explained :
      (holes : List Hole) → All (λ h. ¬ Explained gaps h) (holes_left (group_gaps [] gaps) holes)
  unfolding holes_left
  left-not-Explained [] = tt
  left-not-Explained (h ∷ holes) = elim (Bool-cases (is_covered (group_gaps [] gaps) h)) [
    | inl e ↦ rw e (left-not-Explained holes)
    | inr e ↦ rw e (λ x. false≢true (sym e ∙ (is_covered_iff gaps h).1 x), left-not-Explained holes)
  ]

  abbrev Kept : List Hole → Hole → Type 0
  Kept result h = Explained gaps h ⊎ Mem h result

  Kept-cons :
      (g : Hole) (result holes : List Hole)
      → All (Kept result) holes
      → All (Kept (g ∷ result)) holes
  Kept-cons g result [] k = tt
  Kept-cons g result (h ∷ holes) k =
      (elim k.0 [ inl x ↦ inl x | inr m ↦ inr (mem-cons_of_mem g m) ], Kept-cons g result holes k.1)

  left-Kept : (holes : List Hole) → All (Kept (holes_left (group_gaps [] gaps) holes)) holes
  unfolding holes_left
  left-Kept [] = tt
  left-Kept (h ∷ holes) = elim (Bool-cases (is_covered (group_gaps [] gaps) h)) [
    | inl e ↦
        let rest = holes_left (group_gaps [] gaps) holes in
        let same : holes_left (group_gaps [] gaps) (h ∷ holes) ≡ rest = rw e refl in
        subst (λ r. All (Kept r) (h ∷ holes)) (sym same)
          (inl ((is_covered_iff gaps h).0 e), left-Kept holes)
    | inr e ↦
        let rest = holes_left (group_gaps [] gaps) holes in
        let same : holes_left (group_gaps [] gaps) (h ∷ holes) ≡ h ∷ rest = rw e refl in
        subst (λ r. All (Kept r) (h ∷ holes)) (sym same)
          (inr mem-cons_self, Kept-cons h rest holes (left-Kept holes))
  ]

-- The audit fails exactly the holes that the recorded gaps do not explain: each hole has all its
-- offsets in gaps recorded for its own partition, or is reported, and none that is reported has.
pub uncovered_holes-exact :
    (holes gaps : List Hole)
    → All (λ h. Explained gaps h ⊎ Mem h (uncovered_holes holes gaps)) holes
      × All (λ h. ¬ Explained gaps h) (uncovered_holes holes gaps)
unfolding uncovered_holes
uncovered_holes-exact holes gaps = (left-Kept gaps holes, left-not-Explained gaps holes)
