-- ===== src/Book/Levels.antt =====
-- One side of a book: what deleting its worst prices leaves.
use k2_market_data_platform.Base.{
  ℕ, zero, suc, ◌+◌, ◌-◌, ◌≤◌, ◌≡◌, refl, ◌∙◌, ap, Bool, true, false, ◌||◌, Option, none, some,
  List, [], ◌∷◌, length, take, All, if◌then◌else◌, ltb, min, if_intro, arith,
}
use k2_market_data_platform.Base.Int.{ℤ, ◌==ℤ◌, ==ℤ_iff}
use k2_market_data_platform.Base.Eq.{int_eq}
use k2_market_data_platform.Base.Dict.{lookup, erase, lookup-erase, IsDict}
use k2_market_data_platform.Base.Sort.{sort, place, length-sort, All-sort}
use k2_market_data_platform.Book.{Levels, delete_all, prices, truncate_side}

unfoldable pub contains : ℤ → List ℤ → Bool
contains p [] = false
contains p (x ∷ xs) = x ==ℤ p || contains p xs

abbrev pub IsDistinct : List ℤ → Type 0
IsDistinct [] = Unit
IsDistinct (x ∷ xs) = (contains x xs ≡ false) × IsDistinct xs

unfoldable pub is_held : Option ℤ → Bool
is_held none = false
is_held (some q) = true

pub contains-prices : (p : ℤ) (m : Levels) → contains p (prices m) ≡ is_held (lookup p m)
unfolding contains is_held lookup
contains-prices p [] = refl
contains-prices p ((q, v) ∷ m) = ground (arith, contains-prices p m)

pub prices-IsDistinct : (m : Levels) → IsDict m → IsDistinct (prices m)
unfolding is_held
prices-IsDistinct [] h = tt
prices-IsDistinct ((q, v) ∷ m) h = (contains-prices q m ∙ ap is_held h.0, prices-IsDistinct m h.1)

module _ (before : ℤ → ℤ → Bool) where
  pub contains-place :
      (p x : ℤ) (xs : List ℤ) → contains p (place before x xs) ≡ (x ==ℤ p || contains p xs)
  unfolding contains place
  contains-place p x [] = refl
  contains-place p x (y ∷ ys) = ground (arith, contains-place p x ys)

  pub contains-sort : (p : ℤ) (xs : List ℤ) → contains p (sort before xs) ≡ contains p xs
  unfolding contains sort
  contains-sort p [] = refl
  contains-sort p (x ∷ xs) = ground (arith, contains-sort p xs, contains-place p x (sort before xs))

  pub place-IsDistinct :
      (x : ℤ) (xs : List ℤ) → contains x xs ≡ false → IsDistinct xs → IsDistinct (place before x xs)
  unfolding contains place
  place-IsDistinct x [] h d = (refl, tt)
  place-IsDistinct x (y ∷ ys) h d =
      ground (arith, place-IsDistinct x ys, contains-place y x ys, ==ℤ_iff x y, ==ℤ_iff y x, h, d)

  pub sort-IsDistinct : (xs : List ℤ) → IsDistinct xs → IsDistinct (sort before xs)
  unfolding sort
  sort-IsDistinct [] d = tt
  sort-IsDistinct (x ∷ xs) d =
      place-IsDistinct x (sort before xs) (contains-sort x xs ∙ d.0) (sort-IsDistinct xs d.1)

pub contains-take :
    (p : ℤ) (n : ℕ) (xs : List ℤ) → contains p xs ≡ false → contains p (take n xs) ≡ false
unfolding contains
contains-take p zero xs h = refl
contains-take p (suc n) [] h = refl
contains-take p (suc n) (x ∷ xs) h = ground (arith, contains-take p n xs, h)

pub take-IsDistinct : (n : ℕ) (xs : List ℤ) → IsDistinct xs → IsDistinct (take n xs)
take-IsDistinct zero xs d = tt
take-IsDistinct (suc n) [] d = tt
take-IsDistinct (suc n) (x ∷ xs) d = (contains-take x n xs d.0, take-IsDistinct n xs d.1)

-- every one of the prices is in the levels
abbrev pub AllHeld : Levels → List ℤ → Type 0
AllHeld m ps = All (λ p. is_held (lookup p m) ≡ true) ps

pub erase-IsDict : (p : ℤ) (m : Levels) → IsDict m → IsDict (erase p m)
unfolding erase
erase-IsDict p [] d = tt
erase-IsDict p ((q, v) ∷ m) d = ground (arith, erase-IsDict p m d.1, lookup-erase p q m, d)

pub length-erase :
    (p : ℤ) (m : Levels)
    → IsDict m
    → length m ≡ length (erase p m) + (if is_held (lookup p m) then 1 else 0)
unfolding erase lookup is_held
length-erase p [] d = omega arith
length-erase p ((q, v) ∷ m) d = ground (arith, length-erase p m d.1, ==ℤ_iff q p, d.0)

pub AllHeld-erase :
    (x : ℤ) (m : Levels) (ps : List ℤ)
    → contains x ps ≡ false
    → AllHeld m ps
    → AllHeld (erase x m) ps
unfolding contains is_held
AllHeld-erase x m [] c h = tt
AllHeld-erase x m (p ∷ ps) c h =
    ground (arith, AllHeld-erase x m ps, lookup-erase x p m, ==ℤ_iff x p, ==ℤ_iff p x, c, h.0, h.1)

pub delete_all-IsDict : (ps : List ℤ) (m : Levels) → IsDict m → IsDict (delete_all ps m)
unfolding delete_all
delete_all-IsDict [] m d = d
delete_all-IsDict (p ∷ ps) m d = delete_all-IsDict ps (erase p m) (erase-IsDict p m d)

pub length-delete_all :
    (ps : List ℤ) (m : Levels)
    → IsDict m
    → IsDistinct ps
    → AllHeld m ps
    → length m ≡ length (delete_all ps m) + length ps
unfolding delete_all is_held
length-delete_all [] m d u h = omega arith
length-delete_all (p ∷ ps) m d u h = ground (
  arith,
  length-delete_all ps (erase p m) (erase-IsDict p m d) u.1 (AllHeld-erase p m ps u.0 h.1),
  length-erase p m d,
  h.0,
)

pub AllHeld-insert_first :
    (q v : ℤ) (m : Levels) (ps : List ℤ) → AllHeld m ps → AllHeld ((q, v) ∷ m) ps
unfolding is_held lookup
AllHeld-insert_first q v m [] h = tt
AllHeld-insert_first q v m (p ∷ ps) h = ground (arith, AllHeld-insert_first q v m ps h.1, h.0)

pub AllHeld-prices : (m : Levels) → AllHeld m (prices m)
unfolding is_held lookup
AllHeld-prices [] = tt
AllHeld-prices ((q, v) ∷ m) =
    ground (arith, AllHeld-insert_first q v m (prices m) (AllHeld-prices m), ==ℤ_iff q q)

pub All-take : (P : ℤ → Type 0) (n : ℕ) (xs : List ℤ) → All P xs → All P (take n xs)
All-take P zero xs h = tt
All-take P (suc n) [] h = tt
All-take P (suc n) (x ∷ xs) h = (h.0, All-take P n xs h.1)

pub length-take : (n : ℕ) (xs : List ℤ) → n ≤ length xs → length (take n xs) ≡ n
length-take zero xs h = refl
length-take (suc n) [] h = omega (arith, h)
length-take (suc n) (x ∷ xs) h = omega (arith, length-take n xs (omega (arith, h)))

pub length-prices : (m : Levels) → length (prices m) ≡ length m
length-prices [] = refl
length-prices (e ∷ m) = omega (arith, length-prices m)

module _ (worse : ℤ → ℤ → Bool) (limit : ℕ) where
  pub length-truncate_side :
      (m : Levels) → IsDict m → length (truncate_side worse limit m) ≡ min (length m) limit
  unfolding truncate_side
  length-truncate_side m d = ground (
    arith,
    length-delete_all (take (length m - limit) (sort worse (prices m))) m d
        (take-IsDistinct (length m - limit) (sort worse (prices m))
          (sort-IsDistinct worse (prices m) (prices-IsDistinct m d)))
        (All-take (λ p. is_held (lookup p m) ≡ true) (length m - limit) (sort worse (prices m))
          (All-sort worse (λ p. is_held (lookup p m) ≡ true) (prices m) (AllHeld-prices m))),
    length-take (length m - limit) (sort worse (prices m)),
    length-sort worse (prices m),
    length-prices m,
  )

  pub truncate_side-IsDict : (m : Levels) → IsDict m → IsDict (truncate_side worse limit m)
  unfolding truncate_side
  truncate_side-IsDict m d =
      if_intro IsDict (ltb limit (length m))
        (delete_all (take (length m - limit) (sort worse (prices m))) m) m
        (delete_all-IsDict (take (length m - limit) (sort worse (prices m))) m d) d
