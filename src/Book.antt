-- ===== src/Book.antt =====
-- docker/lake/book.py: the book of one instrument and the fold of Kraken's frames. Prices and
-- quantities are whole numbers of 1e-8 units.
pub mod Levels
pub mod Depth
pub mod Quotes
pub mod Best
pub mod Checksum
use k2_market_data_platform.Base.{
  ℕ, ◌-◌, max, Bool, true, false, List, [], ◌∷◌, map, length, take, if◌then◌else◌, ltb,
}
use k2_market_data_platform.Base.Int.{ℤ, pos, ltb_ℤ, ◌==ℤ◌}
use k2_market_data_platform.Base.Eq.{int_eq}
use k2_market_data_platform.Base.Dict.{Dict, insert, erase}
use k2_market_data_platform.Base.Sort.{sort}

-- price to quantity
abbrev pub Levels : Type 0
Levels = Dict ℤ ℤ

pub record Book : Type 0 where
  pub bids : Levels
  pub asks : Levels

pub data Side : Type 0 where
  bid : Side
  ask : Side

unfoldable pub clear : Book → Book
clear book = record { bids = []; asks = [] }

-- a quantity of 0 removes the level
unfoldable pub set_level : ℤ → ℤ → Levels → Levels
set_level px qty levels = if qty ==ℤ pos 0 then erase px levels else insert px qty levels

unfoldable pub apply : Book → Side → ℤ → ℤ → Book
apply book bid px qty = record book { bids = set_level px qty book.bids }
apply book ask px qty = record book { asks = set_level px qty book.asks }

-- `for px in keys: del levels[px]`
unfoldable pub delete_all : List ℤ → Levels → Levels
delete_all [] levels = levels
delete_all (px ∷ keys) levels = delete_all keys (erase px levels)

abbrev pub prices : Levels → List ℤ
prices levels = map (λ e. e.0) levels

-- One side of `truncate`: the prices in the order in which they go, the worst first.
unfoldable pub truncate_side : (ℤ → ℤ → Bool) → ℕ → Levels → Levels
truncate_side worse depth levels =
    if ltb depth (length levels)
    then delete_all (take (length levels - depth) (sort worse (prices levels))) levels
    else levels

-- the lowest bids go, and the highest asks
unfoldable pub truncate : Book → ℕ → Book
truncate book depth = record {
  bids = truncate_side ltb_ℤ depth book.bids;
  asks = truncate_side (λ p q. ltb_ℤ q p) depth book.asks;
}

unfoldable pub depth : Book → ℕ
depth book = max (length book.bids) (length book.asks)

unfoldable pub apply_all : Book → Side → List (ℤ × ℤ) → Book
apply_all book side [] = book
apply_all book side ((px, qty) ∷ levels) = apply_all (apply book side px qty) side levels

pub record Frame : Type 0 where
  pub is_snapshot : Bool
  pub bids : List (ℤ × ℤ)
  pub asks : List (ℤ × ℤ)

unfoldable pub kraken_apply : ℕ → Book → Frame → Book
kraken_apply limit book frame =
    let start = if frame.is_snapshot then clear book else book in
    truncate (apply_all (apply_all start bid frame.bids) ask frame.asks) limit

-- the frames of a connection
unfoldable pub kraken_replay : ℕ → Book → List Frame → Book
kraken_replay limit book [] = book
kraken_replay limit book (f ∷ frames) = kraken_replay limit (kraken_apply limit book f) frames

abbrev pub empty_book : Book
empty_book = record { bids = []; asks = [] }
