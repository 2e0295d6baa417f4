-- ===== src/Base/Sort.antt =====
-- Python's `sorted`: stable, here by insertion.
use mathlib.Core.Path.{◌≡◌, refl, ◌∙◌}
use mathlib.Core.Bool.{Bool, false}
use mathlib.Core.Logic.{inl, inr}
use mathlib.Core.Option.{none, some}
use mathlib.Core.List.{List, [], ◌∷◌, Perm}
use mathlib.Core.List.Perm
use native.Mathlib.Omega.{arith}
use k2_market_data_platform.Base.Tests.{if◌then◌else◌, Bool-cases}
use k2_market_data_platform.Base.Lists.{length, All}
use k2_market_data_platform.Base.Eq.{Eq, ◌=?◌}
use k2_market_data_platform.Base.Dict.{Dict, IsDict, lookup}

module _ {ℓ} {A : Type ℓ} (before : A → A → Bool) where
  -- among equals the new element comes first
  unfoldable pub place : A → List A → List A
  place x [] = x ∷ []
  place x (y ∷ ys) = let rest = place x ys in if before y x then y ∷ rest else x ∷ y ∷ ys

  unfoldable pub sort : List A → List A
  sort [] = []
  sort (x ∷ xs) = place x (sort xs)

  pub length-place : (x : A) (xs : List A) → length (place x xs) ≡ length (x ∷ xs)
  unfolding place
  length-place x [] = refl
  length-place x (y ∷ ys) = ground (arith, length-place x ys)

  pub length-sort : (xs : List A) → length (sort xs) ≡ length xs
  unfolding sort
  length-sort [] = refl
  length-sort (x ∷ xs) = omega (arith, length-place x (sort xs), length-sort xs)

  place-perm : (x : A) (xs : List A) → Perm (place x xs) (x ∷ xs)
  unfolding place
  place-perm x [] = Perm.refl (x ∷ [])
  place-perm x (y ∷ ys) = elim (Bool-cases (before y x)) [
    | inl e ↦ rw e (Perm.trans (Perm.cons y (place-perm x ys)) (Perm.swap x y ys))
    | inr e ↦ rw e (Perm.refl (x ∷ y ∷ ys))
  ]

  -- Sorting rearranges.
  pub sort-perm : (xs : List A) → Perm (sort xs) xs
  unfolding sort
  sort-perm [] = Perm.refl []
  sort-perm (x ∷ xs) = Perm.trans (place-perm x (sort xs)) (Perm.cons x (sort-perm xs))

  -- Every element of a sorted list comes before none that stands to its left.
  abbrev pub IsSorted : List A → Type 0
  IsSorted [] = Unit
  IsSorted (x ∷ xs) = All (λ y. before y x ≡ false) xs × IsSorted xs

  module _ {κ} (P : A → Type κ) where
    pub All-place : (x : A) (xs : List A) → P x → All P xs → All P (place x xs)
    unfolding place
    All-place x [] h k = (h, tt)
    All-place x (y ∷ ys) h k = ground (arith, All-place x ys h k.1)

    pub All-sort : (xs : List A) → All P xs → All P (sort xs)
    unfolding sort
    All-sort [] h = tt
    All-sort (x ∷ xs) h = All-place x (sort xs) h.0 (All-sort xs h.1)

module _ {ℓ κ} {K : Type ℓ} {V : Type κ} ⦃e : Eq K⦄ (before : K × V → K × V → Bool) where
  lookup-place :
      (j k : K) (v : V) (m : Dict K V)
      → lookup k m ≡ none
      → lookup j (place before (k, v) m) ≡ (if k =? j then some v else lookup j m)
  unfolding lookup place
  lookup-place j k v [] h = refl
  lookup-place j k v ((i, w) ∷ m) h =
      ground (arith, lookup-place j k v m, e.beq_iff k j, e.beq_iff i k, e.beq_iff i j)

  -- Sorting the items of a dict changes no lookup.
  pub lookup-sort : (j : K) (m : Dict K V) → IsDict m → lookup j (sort before m) ≡ lookup j m
  unfolding lookup sort
  lookup-sort j [] h = refl
  lookup-sort j ((k, v) ∷ m) h =
      ground (arith, lookup-sort j m h.1, lookup-sort k m h.1, lookup-place j k v (sort before m))

  place-IsDict :
      (k : K) (v : V) (m : Dict K V) → lookup k m ≡ none → IsDict m → IsDict (place before (k, v) m)
  unfolding lookup place
  place-IsDict k v [] h d = (refl, tt)
  place-IsDict k v ((i, w) ∷ m) h d =
      ground (arith, place-IsDict k v m, lookup-place i k v m, e.beq_iff k i, e.beq_iff i k)

  pub sort-IsDict : (m : Dict K V) → IsDict m → IsDict (sort before m)
  unfolding sort
  sort-IsDict [] h = tt
  sort-IsDict ((k, v) ∷ m) h =
      place-IsDict k v (sort before m) (lookup-sort k m h.1 ∙ h.0) (sort-IsDict m h.1)
