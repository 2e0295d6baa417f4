-- ===== src/Bars.antt =====
-- docker/lake/bars.py: `reference`, which cuts a day's trades into bars of a number of trades, a volume
-- or a value, and `bars_mismatches`. Prices, quantities and times are not negative and are ℕ here, the
-- times microseconds; a threshold is a whole number of 1e-8 units, as `load` requires. A row is a
-- bar under its key; the kind, the same in all rows of a call, is left out.
pub mod Rows
pub mod Totals
pub mod Tick
pub mod Mismatches
use k2_market_data_platform.Base.{
  ℕ, zero, suc, ◌+◌, ◌*◌, ◌/◌, min, max, String, Bool, true, false, Option, none, some, List, [],
  ◌∷◌, get_or, if◌then◌else◌, ltb, ◌==◌,
}
use k2_market_data_platform.Base.Eq.{string_eq, nat_eq, pair_eq}
use k2_market_data_platform.Base.Dict.{Dict, lookup, insert}
use k2_market_data_platform.Base.Sort.{sort}
use k2_market_data_platform.Base.Order.{by_text, by_nat}

abbrev pub scale : ℕ
scale = 100000000

abbrev pub day_us : ℕ
day_us = 86400000000

pub record Trade : Type 0 where
  pub exchange : String
  pub canonical_symbol : String
  pub exchange_ts : ℕ
  pub recv_ts_ns : ℕ
  pub trade_seq : ℕ
  pub price_e8 : ℕ
  pub qty_e8 : ℕ

pub data Kind : Type 0 where
  tick : Kind
  volume : Kind
  dollar : Kind

-- exchange, symbol and day
abbrev pub Group : Type 0
Group = (String × String) × ℕ

abbrev pub Key : Type 0
Key = Group × ℕ

pub record Bar : Type 0 where
  pub open_e8 : ℕ
  pub high_e8 : ℕ
  pub low_e8 : ℕ
  pub close_e8 : ℕ
  pub volume_e8 : ℕ
  pub quote_volume_e16 : ℕ
  pub quote_volume_e8 : ℕ
  pub trade_count : ℕ
  pub open_time : ℕ
  pub close_time : ℕ

-- `bars` and `cum`
pub record Cut : Type 0 where
  pub bars : Dict Key Bar
  pub cum : Dict Group ℕ

unfoldable pub t_units : Kind → ℕ → ℕ
t_units tick threshold_e8 = threshold_e8 / scale
t_units volume threshold_e8 = threshold_e8
t_units dollar threshold_e8 = threshold_e8 * scale

unfoldable pub units : Kind → Trade → ℕ
units tick x = 1
units volume x = x.qty_e8
units dollar x = x.price_e8 * x.qty_e8

abbrev pub group_of : Trade → Group
group_of x = ((x.exchange, x.canonical_symbol), x.exchange_ts / day_us)

abbrev pub trade_before : Trade → Trade → Bool
trade_before x y = by_text x.exchange y.exchange (
    by_text x.canonical_symbol y.canonical_symbol (
      by_nat x.exchange_ts y.exchange_ts
        (by_nat x.recv_ts_ns y.recv_ts_ns (ltb x.trade_seq y.trade_seq))))

-- no two items of a dict have one key
abbrev pub row_before : Key × Bar → Key × Bar → Bool
row_before r s =
    by_text r.0.0.0.0 s.0.0.0.0
      (by_text r.0.0.0.1 s.0.0.0.1 (by_nat r.0.0.1 s.0.0.1 (ltb r.0.1 s.0.1)))

unfoldable pub new_bar : Trade → Bar
new_bar x = record {
  open_e8 = x.price_e8;
  high_e8 = x.price_e8;
  low_e8 = x.price_e8;
  close_e8 = x.price_e8;
  volume_e8 = 0;
  quote_volume_e16 = 0;
  quote_volume_e8 = 0;
  trade_count = 0;
  open_time = x.exchange_ts;
  close_time = x.exchange_ts;
}

unfoldable pub add_trade : Bar → Trade → Bar
add_trade b x = record b {
  high_e8 = max b.high_e8 x.price_e8;
  low_e8 = min b.low_e8 x.price_e8;
  close_e8 = x.price_e8;
  close_time = x.exchange_ts;
  volume_e8 = b.volume_e8 + x.qty_e8;
  quote_volume_e16 = b.quote_volume_e16 + x.price_e8 * x.qty_e8;
  quote_volume_e8 = (b.quote_volume_e16 + x.price_e8 * x.qty_e8) / scale;
  trade_count = suc b.trade_count;
}

-- the key that a trade falls to
unfoldable pub key_for : ℕ → Dict Group ℕ → Trade → Key
key_for t cum x = (group_of x, get_or (lookup (group_of x) cum) 0 / t)

unfoldable pub take_trade : Kind → ℕ → Cut → Trade → Cut
take_trade kind t c x = record {
  bars =
      insert (key_for t c.cum x)
        (add_trade (get_or (lookup (key_for t c.cum x) c.bars) (new_bar x)) x) c.bars;
  cum = insert (group_of x) (get_or (lookup (group_of x) c.cum) 0 + units kind x) c.cum;
}

unfoldable pub take_trades : Kind → ℕ → Cut → List Trade → Cut
take_trades kind t c [] = c
take_trades kind t c (x ∷ trades) = take_trades kind t (take_trade kind t c x) trades

abbrev pub nothing_cut : Cut
nothing_cut = record { bars = []; cum = [] }

unfoldable pub cut : Kind → ℕ → List Trade → Dict Key Bar
cut kind t trades = sort row_before (take_trades kind t nothing_cut (sort trade_before trades)).bars

-- `before // t_units` raises where the units are none
abbrev pub unless_zero : ℕ → Dict Key Bar → List Trade → Option (Dict Key Bar)
unless_zero t bars [] = some bars
unless_zero t bars (x ∷ trades) = if t == 0 then none else some bars

unfoldable pub reference : List Trade → Kind → ℕ → Option (Dict Key Bar)
reference trades kind threshold_e8 =
    unless_zero (t_units kind threshold_e8) (cut kind (t_units kind threshold_e8) trades) trades
