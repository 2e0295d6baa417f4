-- ===== src/Producer/Recent.antt =====
-- Lists of keys, the one used last first.
use k2_market_data_platform.Base.{
  ℕ, zero, suc, ◌≤◌, ◌≡◌, refl, sym, ap, ◌∙◌, subst, String, Bool, true, false, Bool-cases, inl,
  inr, List, [], ◌∷◌, length, take, if◌then◌else◌, arith,
}
use k2_market_data_platform.Base.Eq.{◌=?◌, string_eq, beq_eq}

abbrev pub without : String → List String → List String
without k [] = []
without k (j ∷ ks) = if j =? k then without k ks else j ∷ without k ks

abbrev pub has : String → List String → Bool
has k [] = false
has k (j ∷ ks) = if j =? k then true else has k ks

abbrev pub Unique : List String → Type 0
Unique [] = Unit
Unique (k ∷ ks) = (has k ks ≡ false) × Unique ks

pub without-absent : (k : String) (ks : List String) → has k ks ≡ false → without k ks ≡ ks
without-absent k [] h = refl
without-absent k (j ∷ ks) h = ground (arith, h, without-absent k ks)

pub has-without :
    (j k : String) (ks : List String) → has j ks ≡ false → has j (without k ks) ≡ false
has-without j k [] h = refl
has-without j k (i ∷ ks) h = ground (arith, h, has-without j k ks)

pub has-without_self : (k : String) (ks : List String) → has k (without k ks) ≡ false
has-without_self k [] = refl
has-without_self k (j ∷ ks) = ground (arith, has-without_self k ks)

pub without-Unique : (k : String) (ks : List String) → Unique ks → Unique (without k ks)
without-Unique k [] h = tt
without-Unique k (j ∷ ks) h = ground (arith, without-Unique k ks h.1, has-without j k ks h.0)

pub has-take :
    (k : String) (n : ℕ) (ks : List String) → has k ks ≡ false → has k (take n ks) ≡ false
has-take k zero ks h = refl
has-take k (suc n) [] h = refl
has-take k (suc n) (j ∷ ks) h = ground (arith, h, has-take k n ks)

pub take-without_absent :
    (k : String) (n : ℕ) (ks : List String)
    → has k (take n ks) ≡ false
    → take n (without k ks) ≡ take n ks
take-without_absent k zero ks h = refl
take-without_absent k (suc n) [] h = refl
take-without_absent k (suc n) (j ∷ ks) h = ground (arith, h, take-without_absent k n ks)

pub take-without_fewer :
    (k : String) (n : ℕ) (ks : List String)
    → has k (take (suc n) ks) ≡ false
    → take n (take (suc n) ks) ≡ take n (without k ks)
take-without_fewer k zero ks h = refl
take-without_fewer k (suc n) [] h = refl
take-without_fewer k (suc n) (j ∷ ks) h = ground (arith, h, take-without_fewer k n ks)

pub take-without_short :
    (k : String) (n : ℕ) (ks : List String)
    → has k (take (suc n) ks) ≡ false
    → length (take (suc n) ks) ≤ n
    → take (suc n) ks ≡ take n (without k ks)
take-without_short k zero [] h few = refl
take-without_short k (suc n) [] h few = refl
take-without_short k zero (j ∷ ks) h few = absurd (omega (arith, few))
take-without_short k (suc n) (j ∷ ks) h few = ground (arith, h, few, take-without_short k n ks)

pub take-without_present :
    (k : String) (n : ℕ) (ks : List String)
    → Unique ks
    → has k (take (suc n) ks) ≡ true
    → without k (take (suc n) ks) ≡ take n (without k ks)
take-without_present k n [] u h = cc
take-without_present k n (j ∷ ks) u h = elim (Bool-cases (j =? k)) [
  | inl same ↦ rw same (
      let absent = subst (λ i. has i ks ≡ false) (beq_eq j k same) u.0 in
      without-absent k (take n ks) (has-take k n ks absent)
      ∙ sym (ap (take n) (without-absent k ks absent)))
  | inr other ↦ rw other (
      further n (λ m. take-without_present k m ks u.1)
        (subst (λ b. (if b then true else has k (take n ks)) ≡ true) other h))
]
  where
    further :
        (n : ℕ)
        → ((m : ℕ)
            → has k (take (suc m) ks) ≡ true
            → without k (take (suc m) ks) ≡ take m (without k ks))
        → has k (take n ks) ≡ true
        → j ∷ without k (take n ks) ≡ take n (j ∷ without k ks)
    further zero ih h = cc
    further (suc n) ih h = ap (λ rs. j ∷ rs) (ih n h)
