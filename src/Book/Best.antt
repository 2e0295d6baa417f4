-- ===== src/Book/Best.antt =====
-- Which levels a truncation drops.
use k2_market_data_platform.Base.{
  ℕ, zero, suc, ◌-◌, ◌≡◌, refl, sym, ◌∙◌, ap, subst, Bool, true, false, ◌&&◌, Bool-cases, inl, inr,
  none, List, [], ◌∷◌, length, take, All, if◌then◌else◌, ltb, arith,
}
use k2_market_data_platform.Base.Int.{ℤ, ltb_ℤ, ◌<ℤ◌, ◌==ℤ◌, ==ℤ_iff}
use k2_market_data_platform.Base.Eq.{int_eq}
use k2_market_data_platform.Base.Dict.{lookup, erase, lookup-erase}
use k2_market_data_platform.Base.Sort.{sort, place, IsSorted, All-place}
use k2_market_data_platform.Book.{Book, Levels, delete_all, prices, truncate_side, truncate}
use k2_market_data_platform.Book.Levels.{contains, is_held, contains-prices, contains-sort}

lookup-delete_all :
    (p : ℤ) (ps : List ℤ) (m : Levels)
    → lookup p (delete_all ps m) ≡ (if contains p ps then none else lookup p m)
unfolding delete_all contains
lookup-delete_all p [] m = refl
lookup-delete_all p (x ∷ ps) m =
    ground (arith, lookup-delete_all p ps (erase x m), lookup-erase x p m)

All-contains : (P : ℤ → Type 0) (p : ℤ) (xs : List ℤ) → All P xs → contains p xs ≡ true → P p
unfolding contains
All-contains P p [] h c = ground (arith, c)
All-contains P p (x ∷ xs) h c = elim (Bool-cases (x ==ℤ p)) [
  | inl e ↦ subst P ((==ℤ_iff x p).0 e) h.0
  | inr e ↦ All-contains P p xs h.1 (ground (arith, c, e))
]

-- an order of prices: `worse` is asymmetric, and what is not worse is transitive
module _ (worse : ℤ → ℤ → Bool) (asym : (x y : ℤ) → worse y x ≡ true → worse x y ≡ false)
    (rises : (x y z : ℤ) → worse y x ≡ false → worse z y ≡ false → worse z x ≡ false) where
  not_worse :
      (x y : ℤ) (ys : List ℤ)
      → worse y x ≡ false
      → All (λ z. worse z y ≡ false) ys
      → All (λ z. worse z x ≡ false) ys
  not_worse x y [] h a = tt
  not_worse x y (z ∷ ys) h a = (rises x y z h a.0, not_worse x y ys h a.1)

  place-IsSorted : (x : ℤ) (xs : List ℤ) → IsSorted worse xs → IsSorted worse (place worse x xs)
  unfolding place
  place-IsSorted x [] s = (tt, tt)
  place-IsSorted x (y ∷ ys) s = elim (Bool-cases (worse y x)) [
    | inl e ↦
        rw e
          (All-place worse (λ z. worse z y ≡ false) x ys (asym x y e) s.0, place-IsSorted x ys s.1)
    | inr e ↦ rw e ((e, not_worse x y ys e s.0), s)
  ]

  sort-IsSorted : (xs : List ℤ) → IsSorted worse (sort worse xs)
  unfolding sort
  sort-IsSorted [] = tt
  sort-IsSorted (x ∷ xs) = place-IsSorted x (sort worse xs) (sort-IsSorted xs)

  -- what a prefix of a sorted list leaves out is not worse than what it holds
  left_out :
      (p q : ℤ) (n : ℕ) (xs : List ℤ)
      → IsSorted worse xs
      → contains q (take n xs) ≡ true
      → contains p xs ≡ true
      → contains p (take n xs) ≡ false
      → worse p q ≡ false
  unfolding contains
  left_out p q zero xs s cq cp out = ground (arith, cq)
  left_out p q (suc n) [] s cq cp out = ground (arith, cq)
  left_out p q (suc n) (x ∷ xs) s cq cp out =
      let later : contains p xs ≡ true = ground (arith, cp, out) in
      elim (Bool-cases (x ==ℤ q)) [
        | inl e ↦
            subst (λ y. worse p y ≡ false) ((==ℤ_iff x q).0 e)
              (All-contains (λ y. worse y x ≡ false) p xs s.0 later)
        | inr e ↦ left_out p q n xs s.1 (ground (arith, cq, e)) later (ground (arith, out))
      ]

  lookup-truncate_side :
      (limit : ℕ) (m : Levels) (p : ℤ)
      → lookup p (truncate_side worse limit m) ≡ (
          if ltb limit (length m) && contains p (take (length m - limit) (sort worse (prices m)))
          then none
          else lookup p m)
  unfolding truncate_side
  lookup-truncate_side limit m p =
      ground (arith, lookup-delete_all p (take (length m - limit) (sort worse (prices m))) m)

  held-sort : (m : Levels) (p : ℤ) → contains p (sort worse (prices m)) ≡ is_held (lookup p m)
  held-sort m p = contains-sort worse p (prices m) ∙ contains-prices p m

  truncate_side-best :
      (limit : ℕ) (m : Levels) (p q : ℤ)
      → is_held (lookup p (truncate_side worse limit m)) ≡ true
      → is_held (lookup q m) ≡ true
      → is_held (lookup q (truncate_side worse limit m)) ≡ false
      → worse p q ≡ false
  unfolding is_held
  truncate_side-best limit m p q kept held gone =
      let n = length m - limit in
      let xs = sort worse (prices m) in
      ground (
        arith,
        left_out p q n xs (sort-IsSorted (prices m)),
        lookup-truncate_side limit m p,
        lookup-truncate_side limit m q,
        held-sort m p,
        held-sort m q,
        kept,
        held,
        gone,
      )

less_asym : (x y : ℤ) → ltb_ℤ y x ≡ true → ltb_ℤ x y ≡ false
less_asym x y h = ground (arith, h)

less_rises : (x y z : ℤ) → ltb_ℤ y x ≡ false → ltb_ℤ z y ≡ false → ltb_ℤ z x ≡ false
less_rises x y z h k = ground (arith, h, k)

different :
    (m : Levels) (p q : ℤ)
    → is_held (lookup p m) ≡ true
    → is_held (lookup q m) ≡ false
    → (p ==ℤ q) ≡ false
different m p q h k = elim (Bool-cases (p ==ℤ q)) [
  | inr e ↦ e
  | inl e ↦ ground (arith, sym h ∙ ap (λ z. is_held (lookup z m)) ((==ℤ_iff p q).0 e) ∙ k)
]

-- A bid that a truncation keeps is above every bid that it drops.
pub truncate-bids :
    (b : Book) (limit : ℕ) (p q : ℤ)
    → is_held (lookup p (truncate b limit).bids) ≡ true
    → is_held (lookup q b.bids) ≡ true
    → is_held (lookup q (truncate b limit).bids) ≡ false
    → q <ℤ p
unfolding truncate
truncate-bids b limit p q kept held gone = ground (
  arith,
  truncate_side-best ltb_ℤ less_asym less_rises limit b.bids p q kept held gone,
  different (truncate_side ltb_ℤ limit b.bids) p q kept gone,
)

-- An ask that a truncation keeps is below every ask that it drops.
pub truncate-asks :
    (b : Book) (limit : ℕ) (p q : ℤ)
    → is_held (lookup p (truncate b limit).asks) ≡ true
    → is_held (lookup q b.asks) ≡ true
    → is_held (lookup q (truncate b limit).asks) ≡ false
    → p <ℤ q
unfolding truncate
truncate-asks b limit p q kept held gone = ground (
  arith,
  truncate_side-best (λ x y. ltb_ℤ y x) (λ x y h. less_asym y x h)
      (λ x y z h k. less_rises z y x k h) limit b.asks p q kept held gone,
  different (truncate_side (λ x y. ltb_ℤ y x) limit b.asks) p q kept gone,
)
