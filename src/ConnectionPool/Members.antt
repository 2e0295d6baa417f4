-- ===== src/ConnectionPool/Members.antt =====
-- The set of active connections as a list: how often a connection stands in it.
use k2_market_data_platform.Base.{
  ℕ, ◌+◌, ◌≤◌, ◌≡◌, refl, true, false, List, [], ◌∷◌, length, if◌then◌else◌, ◌==◌, arith,
}
use k2_market_data_platform.ConnectionPool.{contains, add, discard}

abbrev pub count : ℕ → List ℕ → ℕ
count c [] = 0
count c (d ∷ ds) = (if d == c then 1 else 0) + count c ds

pub count-contains : (c : ℕ) (ds : List ℕ) → contains c ds ≡ true → 1 ≤ count c ds
unfolding contains
count-contains c [] h = ground (arith, h)
count-contains c (d ∷ ds) h = ground (arith, h, count-contains c ds)

pub count-absent : (c : ℕ) (ds : List ℕ) → contains c ds ≡ false → count c ds ≡ 0
unfolding contains
count-absent c [] h = refl
count-absent c (d ∷ ds) h = ground (arith, h, count-absent c ds)

pub contains-absent : (c : ℕ) (ds : List ℕ) → count c ds ≡ 0 → contains c ds ≡ false
unfolding contains
contains-absent c [] h = refl
contains-absent c (d ∷ ds) h = ground (arith, h, contains-absent c ds)

pub length-discard : (c : ℕ) (ds : List ℕ) → length (discard c ds) + count c ds ≡ length ds
unfolding discard
length-discard c [] = omega arith
length-discard c (d ∷ ds) = ground (arith, length-discard c ds)

pub count-discard :
    (j c : ℕ) (ds : List ℕ) → count j (discard c ds) ≡ (if c == j then 0 else count j ds)
unfolding discard
count-discard j c [] = ground arith
count-discard j c (d ∷ ds) = ground (arith, count-discard j c ds)

pub add_new : (c : ℕ) (ds : List ℕ) → count c ds ≡ 0 → add c ds ≡ c ∷ ds
unfolding add
add_new c ds h = rw (contains-absent c ds h) refl
