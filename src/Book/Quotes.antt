-- ===== src/Book/Quotes.antt =====
-- What a book holds at a price after some quotes: quantities are absolute.
use k2_market_data_platform.Base.{
  ◌≡◌, refl, ◌∙◌, ap, Option, none, some, List, [], ◌∷◌, if◌then◌else◌, arith,
}
use k2_market_data_platform.Base.Int.{ℤ, pos, ◌==ℤ◌}
use k2_market_data_platform.Base.Eq.{int_eq}
use k2_market_data_platform.Base.Dict.{lookup, lookup-erase, lookup-insert}
use k2_market_data_platform.Book.{Book, Levels, Side, bid, ask, set_level, apply, apply_all}

abbrev pub levels_of : Book → Side → Levels
levels_of b bid = b.bids
levels_of b ask = b.asks

-- the last quote of a price, where 0 is the absence of the level
abbrev pub quoted : ℤ → Option ℤ → List (ℤ × ℤ) → Option ℤ
quoted p held [] = held
quoted p held ((px, qty) ∷ levels) =
    quoted p (if px ==ℤ p then if qty ==ℤ pos 0 then none else some qty else held) levels

lookup-set_level :
    (p px qty : ℤ) (m : Levels)
    → lookup p (set_level px qty m)
      ≡ (if px ==ℤ p then if qty ==ℤ pos 0 then none else some qty else lookup p m)
unfolding set_level
lookup-set_level p px qty m = ground (arith, lookup-erase px p m, lookup-insert px p qty m)

-- At every price a side holds the last quantity quoted for it, or none where that is 0, and what it
-- held before at a price that is not quoted.
pub apply_all-quoted :
    (p : ℤ) (b : Book) (side : Side) (levels : List (ℤ × ℤ))
    → lookup p (levels_of (apply_all b side levels) side)
      ≡ quoted p (lookup p (levels_of b side)) levels
unfolding apply_all apply
apply_all-quoted p b bid [] = refl
apply_all-quoted p b ask [] = refl
apply_all-quoted p b bid ((px, qty) ∷ levels) =
    apply_all-quoted p (apply b bid px qty) bid levels
    ∙ ap (λ o. quoted p o levels) (lookup-set_level p px qty b.bids)
apply_all-quoted p b ask ((px, qty) ∷ levels) =
    apply_all-quoted p (apply b ask px qty) ask levels
    ∙ ap (λ o. quoted p o levels) (lookup-set_level p px qty b.asks)
