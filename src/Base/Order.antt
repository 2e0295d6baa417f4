-- ===== src/Base/Order.antt =====
-- Python's order of texts and of tuples.
use Prim.Native.Nat.{ℕ, Ordering}
use Prim.Native.String.{String, compare}
use mathlib.Core.Bool.{Bool, true, false}
use k2_market_data_platform.Base.Tests.{if◌then◌else◌, ltb}

abbrev is_lt : Ordering → Bool
is_lt Ordering.lt = true
is_lt Ordering.eq = false
is_lt Ordering.gt = false

abbrev pub text_before : String → String → Bool
text_before a b = is_lt (compare a b)

-- the rest decides where one place decides neither way
abbrev pub then_by : Bool → Bool → Bool → Bool
then_by before after rest = if before then true else if after then false else rest

abbrev pub by_text : String → String → Bool → Bool
by_text a b rest = then_by (text_before a b) (text_before b a) rest

abbrev pub by_nat : ℕ → ℕ → Bool → Bool
by_nat a b rest = then_by (ltb a b) (ltb b a) rest
