-- ===== src/Tests/BarsTests.antt =====
-- Five trades of one symbol over two days, in bars of two.
use k2_market_data_platform.Base.{ℕ, ◌-◌, ◌*◌, ◌≡◌, min, refl, get_or, List, [], ◌∷◌, length, arith}
use k2_market_data_platform.Base.Eq.{string_eq, nat_eq, pair_eq}
use k2_market_data_platform.Base.Dict.{Dict, lookup, insert}
use k2_market_data_platform.Base.Sort.{sort, place}
use k2_market_data_platform.Bars.{Trade, tick, volume, Key, Bar, t_units, reference}
use k2_market_data_platform.Bars.Rows.{sum_of, total}
use k2_market_data_platform.Bars.Totals.{reference-totals}
use k2_market_data_platform.Bars.Mismatches.{
  RowKey, Columns, by_key, same_columns, bad_keys, keys_of, other_keys, bad_rows, bars_mismatches,
  last_row, bars_mismatches-same,
}
use k2_market_data_platform.Bars.Tick.{count_at, trades_of, reference-tick}

abbrev trade_at : ℕ → ℕ → Trade
trade_at exchange_ts price_e8 = record {
  exchange = "kraken";
  canonical_symbol = "BTC-USD";
  exchange_ts = exchange_ts;
  recv_ts_ns = 5;
  trade_seq = 1;
  price_e8 = price_e8;
  qty_e8 = 3;
}

abbrev trades : List Trade
trades =
    trade_at 900 40
    ∷ trade_at 100 41
    ∷ trade_at 500 39
    ∷ trade_at 86400000007 44
    ∷ trade_at 300 42
    ∷ []

abbrev two_each : Dict Key Bar
two_each = get_or (reference trades tick 200000000) []

abbrev by_volume : Dict Key Bar
by_volume = get_or (reference trades volume 7) []

reference-tick_example :
    count_at (("kraken", "BTC-USD"), 0) 1 two_each
    ≡ min
        (t_units tick 200000000)
        (trades_of (("kraken", "BTC-USD"), 0) trades - 1 * t_units tick 200000000)
unfolding reference t_units
reference-tick_example =
    reference-tick trades 200000000 two_each (("kraken", "BTC-USD"), 0) 1 (omega arith) refl

reference-totals_example :
    (total (λ b. b.trade_count) by_volume ≡ length trades)
    × (total (λ b. b.volume_e8) by_volume ≡ sum_of (λ x. x.qty_e8) trades)
    × (total (λ b. b.quote_volume_e16) by_volume ≡ sum_of (λ x. x.price_e8 * x.qty_e8) trades)
unfolding reference t_units
reference-totals_example = reference-totals trades volume 7 by_volume refl

abbrev columns : ℕ → Columns
columns close_e8 = record {
  open_e8 = 40;
  high_e8 = 44;
  low_e8 = 39;
  close_e8 = close_e8;
  volume_e8 = 6;
  quote_volume_e8 = 2;
  trade_count = 2;
}

abbrev first_key : RowKey
first_key = ((("kraken", "BTC-USD"), "tick"), 0)

abbrev second_key : RowKey
second_key = ((("kraken", "BTC-USD"), "tick"), 1)

bars_mismatches-same_example :
    last_row first_key ((first_key, columns 41) ∷ (second_key, columns 42) ∷ [])
    ≡ last_row first_key ((second_key, columns 42) ∷ (first_key, columns 41) ∷ [])
unfolding bars_mismatches bad_rows bad_keys keys_of other_keys by_key same_columns lookup insert
    sort place
bars_mismatches-same_example =
    bars_mismatches-same ((first_key, columns 41) ∷ (second_key, columns 42) ∷ [])
      ((second_key, columns 42) ∷ (first_key, columns 41) ∷ []) first_key refl
