-- ===== src/Offsets/Holes.antt =====
-- docker/lake/offsets.py: `uncovered_holes`, the holes of the archive that no recorded gap explains.
pub mod Walk
pub mod Exact
use mathlib.Core.List.{Mem, mem-cons_self, mem-cons_of_mem}
use mathlib.Core.Bool.{false≢true}
use k2_market_data_platform.Base.{
  ℕ, String, ◌≡◌, ◌∙◌, refl, sym, ap, subst, ◌⊎◌, inl, inr, ◌↔◌, Bool, true, ◌&&◌, ◌||◌, Bool-cases,
  Option, List, [], ◌∷◌, ◌++◌, append-nil, append_assoc, All, arith, get_or, if◌then◌else◌,
}
use k2_market_data_platform.Base.Int.{ℤ, pos, ◌+ℤ◌, ◌≤ℤ◌, ◌<ℤ◌, ◌==ℤ◌, leb_ℤ, ltb_ℤ, +ℤ_parts}
use k2_market_data_platform.Base.Eq.{◌=?◌, string_eq, nat_eq, pair_eq}
use k2_market_data_platform.Base.Dict.{Dict, lookup, insert, lookup-insert}
use k2_market_data_platform.Base.Sort.{sort, place, All-place}

-- `(topic, partition, first_missing, last_missing)`
pub record Hole : Type 0 where
  pub topic : String
  pub partition : ℕ
  pub first : ℤ
  pub last : ℤ

abbrev pub key_of : Hole → String × ℕ
key_of h = (h.topic, h.partition)

abbrev pub Covered : Type 0
Covered = Dict (String × ℕ) (List (ℤ × ℤ))

-- `covered.setdefault(key, []).append((first, last))`, for each gap
unfoldable pub group_gaps : Covered → List Hole → Covered
group_gaps covered [] = covered
group_gaps covered (g ∷ gaps) =
    group_gaps
      (insert (key_of g) (get_or (lookup (key_of g) covered) [] ++ (g.first, g.last) ∷ []) covered)
      gaps

-- the order of Python's tuples
unfoldable pub range_before : ℤ × ℤ → ℤ × ℤ → Bool
range_before (a, b) (c, d) = ltb_ℤ a c || a ==ℤ c && ltb_ℤ b d

unfoldable pub walk : ℤ → List (ℤ × ℤ) → ℤ
walk cursor [] = cursor
walk cursor ((lo, hi) ∷ ranges) =
    walk (if leb_ℤ lo cursor && leb_ℤ cursor hi then hi +ℤ pos 1 else cursor) ranges

unfoldable pub is_covered : Covered → Hole → Bool
is_covered covered h =
    ltb_ℤ h.last (walk h.first (sort range_before (get_or (lookup (key_of h) covered) [])))

unfoldable pub holes_left : Covered → List Hole → List Hole
holes_left covered [] = []
holes_left covered (h ∷ holes) =
    let rest = holes_left covered holes in if is_covered covered h then rest else h ∷ rest

unfoldable pub uncovered_holes : List Hole → List Hole → List Hole
uncovered_holes holes gaps = holes_left (group_gaps [] gaps) holes
