-- ===== src/Offsets/Bounded/Stop.antt =====
-- The end offset of one partition: which bounds it respects, and that no later end respects them.
use k2_market_data_platform.Base.{◌≡◌, ◌⊎◌, Option, none, some, arith}
use k2_market_data_platform.Base.Int.{ℤ, pos, ◌+ℤ◌, ◌≤ℤ◌, ◌<ℤ◌, +ℤ_parts, min_ℤ, max_ℤ}
use k2_market_data_platform.Offsets.Bounded.{cap_instant, cap_size, stop_at}

-- the bounds of a run on one partition, for an offset `x` to read up to
abbrev pub UnderInstant : Option ℤ → ℤ → Type 0
UnderInstant none x = Unit
UnderInstant (some i) x = pos 0 ≤ℤ i → x ≤ℤ i

abbrev pub UnderSize : ℤ → ℤ → ℤ → Type 0
UnderSize size start x = pos 0 <ℤ size → x ≤ℤ start +ℤ size

module _ (end_of_log : ℤ) (instant : Option ℤ) (size start : ℤ) where
  pub start-le-stop_at : start ≤ℤ stop_at end_of_log instant size start
  unfolding stop_at max_ℤ
  start-le-stop_at = ground arith

  -- an end that respects every bound is not past the one chosen
  pub stop_at-greatest :
      (x : ℤ)
      → x ≤ℤ end_of_log
      → UnderInstant instant x
      → UnderSize size start x
      → x ≤ℤ stop_at end_of_log instant size start
  unfolding stop_at cap_size cap_instant max_ℤ min_ℤ
  stop_at-greatest x a b c = ground arith

  -- and the one chosen respects them, unless it is the start itself
  pub stop_at_bounds :
      (stop_at end_of_log instant size start ≡ start)
      ⊎ ((stop_at end_of_log instant size start ≤ℤ end_of_log)
          × UnderInstant instant (stop_at end_of_log instant size start)
          × UnderSize size start (stop_at end_of_log instant size start))
  unfolding stop_at cap_size cap_instant max_ℤ min_ℤ
  stop_at_bounds = ground (arith, +ℤ_parts start size)
