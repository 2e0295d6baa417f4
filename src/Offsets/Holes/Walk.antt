-- ===== src/Offsets/Holes/Walk.antt =====
-- The walk over the recorded ranges of one partition.
use k2_market_data_platform.Base.{
  ◌≡◌, refl, ◌⊎◌, inl, inr, ◌↔◌, Bool-cases, List, [], ◌∷◌, All, arith,
}
use k2_market_data_platform.Base.Int.{ℤ, pos, ◌+ℤ◌, ◌≤ℤ◌, ◌<ℤ◌, +ℤ_parts}
use k2_market_data_platform.Base.Eq.{string_eq, nat_eq, pair_eq}
use k2_market_data_platform.Base.Sort.{sort, place, All-place}
use k2_market_data_platform.Offsets.Holes.{range_before, walk}

-- Is an offset in one of the ranges?
abbrev pub InRanges : ℤ → List (ℤ × ℤ) → Type 0
InRanges x [] = ⊥
InRanges x ((lo, hi) ∷ ranges) = ((lo ≤ℤ x) × (x ≤ℤ hi)) ⊎ InRanges x ranges

-- the walk only moves forward, and passes over offsets of ranges alone
pub walk-forward : (c : ℤ) (rs : List (ℤ × ℤ)) → c ≤ℤ walk c rs
unfolding walk
walk-forward c [] = omega arith
walk-forward c ((lo, hi) ∷ rs) =
    ground (arith, walk-forward c rs, walk-forward (hi +ℤ pos 1) rs, +ℤ_parts hi (pos 1))

pub walk_sound : (c x : ℤ) (rs : List (ℤ × ℤ)) → c ≤ℤ x → x <ℤ walk c rs → InRanges x rs
unfolding walk
walk_sound c x [] h k = absurd (omega arith)
walk_sound c x ((lo, hi) ∷ rs) h k =
    ground (arith, walk_sound c x rs, walk_sound (hi +ℤ pos 1) x rs, +ℤ_parts hi (pos 1))

-- past a range that starts beyond the cursor, in a list sorted by its starts, nothing moves
walk-stuck : (c : ℤ) (rs : List (ℤ × ℤ)) → All (λ (r : ℤ × ℤ). c <ℤ r.0) rs → walk c rs ≡ c
unfolding walk
walk-stuck c [] h = refl
walk-stuck c ((lo, hi) ∷ rs) h = ground (arith, walk-stuck c rs h.1)

abbrev StartsSorted : List (ℤ × ℤ) → Type 0
StartsSorted [] = Unit
StartsSorted (r ∷ rs) = All (λ (q : ℤ × ℤ). r.0 ≤ℤ q.0) rs × StartsSorted rs

starts_beyond :
    (c lo : ℤ) (rs : List (ℤ × ℤ))
    → c <ℤ lo
    → All (λ (q : ℤ × ℤ). lo ≤ℤ q.0) rs
    → All (λ (q : ℤ × ℤ). c <ℤ q.0) rs
starts_beyond c lo [] h a = tt
starts_beyond c lo (r ∷ rs) h a = (omega arith, starts_beyond c lo rs h a.1)

pub walk_complete : (c : ℤ) (rs : List (ℤ × ℤ)) → StartsSorted rs → ¬ InRanges (walk c rs) rs
unfolding walk
walk_complete c [] s h = h
walk_complete c ((lo, hi) ∷ rs) s h = ground (
  arith,
  walk_complete c rs s.1,
  walk_complete (hi +ℤ pos 1) rs s.1,
  walk-forward c rs,
  walk-forward (hi +ℤ pos 1) rs,
  +ℤ_parts hi (pos 1),
  λ (k : c <ℤ lo). walk-stuck c rs (starts_beyond c lo rs k s.0),
)

place-StartsSorted :
    (r : ℤ × ℤ) (rs : List (ℤ × ℤ)) → StartsSorted rs → StartsSorted (place range_before r rs)
unfolding place range_before
place-StartsSorted r [] s = (tt, tt)
place-StartsSorted r (q ∷ rs) s = elim (Bool-cases (range_before q r)) [
  | inl e ↦ rw e (
    All-place range_before (λ (x : ℤ × ℤ). q.0 ≤ℤ x.0) r rs (ground arith) s.0,
    place-StartsSorted r rs s.1,
  )
  | inr e ↦ rw e ((ground arith, starts_after r.0 q.0 rs (ground arith) s.0), (s.0, s.1))
]
  where
    starts_after :
        (a b : ℤ) (xs : List (ℤ × ℤ))
        → a ≤ℤ b
        → All (λ (x : ℤ × ℤ). b ≤ℤ x.0) xs
        → All (λ (x : ℤ × ℤ). a ≤ℤ x.0) xs
    starts_after a b [] h k = tt
    starts_after a b (x ∷ xs) h k = (omega arith, starts_after a b xs h k.1)

pub sort-StartsSorted : (rs : List (ℤ × ℤ)) → StartsSorted (sort range_before rs)
unfolding sort
sort-StartsSorted [] = tt
sort-StartsSorted (r ∷ rs) = place-StartsSorted r (sort range_before rs) (sort-StartsSorted rs)

module _ (x : ℤ) where
  InRanges-place :
      (r : ℤ × ℤ) (rs : List (ℤ × ℤ)) → InRanges x (place range_before r rs) ↔ InRanges x (r ∷ rs)
  unfolding place
  InRanges-place r [] = (λ h. h, λ h. h)
  InRanges-place r (q ∷ rs) =
      let (to, from) = InRanges-place r rs in
      elim (Bool-cases (range_before q r)) [
        | inl e ↦ rw e (λ h. ground (arith, to), λ h. ground (arith, from))
        | inr e ↦ rw e (λ h. h, λ h. h)
      ]

  pub InRanges-sort : (rs : List (ℤ × ℤ)) → InRanges x (sort range_before rs) ↔ InRanges x rs
  unfolding sort
  InRanges-sort [] = (λ h. h, λ h. h)
  InRanges-sort (r ∷ rs) =
      let (to, from) = InRanges-place r (sort range_before rs) in
      let (to', from') = InRanges-sort rs in
      (λ h. ground (arith, to h, to'), λ h. from (ground (arith, from')))
