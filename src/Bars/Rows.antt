-- ===== src/Bars/Rows.antt =====
-- Sums over the rows of a dict and over sorted lists.
use k2_market_data_platform.Base.{ℕ, ◌+◌, ◌≡◌, refl, Bool, Option, none, some, List, [], ◌∷◌, arith}
use k2_market_data_platform.Base.Eq.{Eq}
use k2_market_data_platform.Base.Dict.{Dict, lookup, insert}
use k2_market_data_platform.Base.Sort.{sort, place}

module _ {ℓ} {A : Type ℓ} (f : A → ℕ) where
  abbrev pub sum_of : List A → ℕ
  sum_of [] = 0
  sum_of (x ∷ xs) = f x + sum_of xs

  sum_of-place :
      (before : A → A → Bool) (x : A) (xs : List A) → sum_of (place before x xs) ≡ f x + sum_of xs
  unfolding place
  sum_of-place before x [] = refl
  sum_of-place before x (y ∷ ys) = ground (arith, sum_of-place before x ys)

  pub sum_of-sort : (before : A → A → Bool) (xs : List A) → sum_of (sort before xs) ≡ sum_of xs
  unfolding sort
  sum_of-sort before [] = refl
  sum_of-sort before (x ∷ xs) =
      omega (arith, sum_of-place before x (sort before xs), sum_of-sort before xs)

module _ {κ} {V : Type κ} (f : V → ℕ) where
  abbrev pub value_of : Option V → ℕ
  value_of none = 0
  value_of (some v) = f v

module _ {ℓ κ} {K : Type ℓ} {V : Type κ} ⦃e : Eq K⦄ (f : V → ℕ) where
  abbrev pub total : Dict K V → ℕ
  total d = sum_of (λ r. f r.1) d

  abbrev pub held_at : K → Dict K V → ℕ
  held_at k d = value_of f (lookup k d)

  pub total-insert :
      (k : K) (v : V) (d : Dict K V) → total (insert k v d) + held_at k d ≡ total d + f v
  unfolding insert lookup
  total-insert k v [] = omega arith
  total-insert k v ((j, w) ∷ d) = ground (arith, total-insert k v d)
