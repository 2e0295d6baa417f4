-- ===== src/Book/Checksum.antt =====
-- docker/lake/book.py: `Book.top`, and Kraken's checksum of the best levels. CRC32 is zlib's, and a
-- parameter, as is the text of the float that `//` yields where a precision is above 8.
use Prim.Native.String.{◌++◌ as concat}
use k2_market_data_platform.Base.{
  ℕ, zero, suc, ◌-◌, ◌/◌, ◌%◌, ◌^◌, String, Bool, ◌&&◌, ◌||◌, List, [], ◌∷◌, take, if◌then◌else◌,
  ltb, leb,
}
use k2_market_data_platform.Base.Int.{ℤ, pos, negsuc, ltb_ℤ, ◌==ℤ◌}
use k2_market_data_platform.Base.Sort.{sort}
use k2_market_data_platform.Book.{Book}

abbrev pub scale_dp : ℕ
scale_dp = 8

abbrev pub checksum_levels : ℕ
checksum_levels = 10

-- `key=lambda kv: -kv[0]`
unfoldable pub higher : ℤ × ℤ → ℤ × ℤ → Bool
higher a b = ltb_ℤ b.0 a.0

-- the order of the tuples `(px, qty)`
unfoldable pub lower : ℤ × ℤ → ℤ × ℤ → Bool
lower a b = ltb_ℤ a.0 b.0 || a.0 ==ℤ b.0 && ltb_ℤ a.1 b.1

unfoldable pub top_bids : Book → ℕ → List (ℤ × ℤ)
top_bids book n = take n (sort higher book.bids)

unfoldable pub top_asks : Book → ℕ → List (ℤ × ℤ)
top_asks book n = take n (sort lower book.asks)

-- a digit's text
unfoldable pub digit : ℕ → String
digit zero = "0"
digit (suc zero) = "1"
digit (suc (suc zero)) = "2"
digit (suc (suc (suc zero))) = "3"
digit (suc (suc (suc (suc zero)))) = "4"
digit (suc (suc (suc (suc (suc zero))))) = "5"
digit (suc (suc (suc (suc (suc (suc zero)))))) = "6"
digit (suc (suc (suc (suc (suc (suc (suc zero))))))) = "7"
digit (suc (suc (suc (suc (suc (suc (suc (suc zero)))))))) = "8"
digit (suc (suc (suc (suc (suc (suc (suc (suc (suc n))))))))) = "9"

-- `str` of a number, on fuel above it
unfoldable pub text_of : ℕ → ℕ → String
text_of zero n = digit n
text_of (suc fuel) n =
    let front = text_of fuel (n / 10) in if ltb n 10 then digit n else concat front (digit (n % 10))

unfoldable pub str : ℤ → String
str (pos n) = text_of n n
str (negsuc n) = concat "-" (text_of (suc n) (suc n))

-- `//` by a positive number, towards minus infinity
unfoldable pub floor_div : ℤ → ℕ → ℤ
floor_div (pos n) k = pos (n / k)
floor_div (negsuc n) k = negsuc (n / k)

module _ (float_text : ℤ → ℕ → String) where
  unfoldable pub checksum_digits : ℤ → ℕ → String
  checksum_digits units precision =
      if leb precision scale_dp
      then str (floor_div units (10 ^ (scale_dp - precision)))
      else float_text units precision

  -- one side's parts, joined
  unfoldable pub side_text : ℕ → ℕ → List (ℤ × ℤ) → String
  side_text price_precision qty_precision [] = ""
  side_text price_precision qty_precision ((px, qty) ∷ levels) =
      concat (checksum_digits px price_precision) (
        concat (checksum_digits qty qty_precision) (side_text price_precision qty_precision levels))

  -- `& 0xFFFFFFFF`
  unfoldable pub kraken_checksum : (String → ℕ) → List (ℤ × ℤ) → List (ℤ × ℤ) → ℕ → ℕ → ℕ
  kraken_checksum crc32 asks bids price_precision qty_precision =
      crc32 (
        concat (side_text price_precision qty_precision (take checksum_levels asks))
          (side_text price_precision qty_precision (take checksum_levels bids)))
      % 2 ^ 32
