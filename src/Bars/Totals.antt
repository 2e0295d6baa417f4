-- ===== src/Bars/Totals.antt =====
-- What the bars hold together.
use k2_market_data_platform.Base.{
  ℕ, ◌+◌, ◌*◌, ◌≡◌, refl, sym, ap, ◌∙◌, Option, none, some, List, [], ◌∷◌, length, get_or, arith,
}
use k2_market_data_platform.Base.Dict.{Dict, lookup}
use k2_market_data_platform.Base.Eq.{nat_eq, string_eq, pair_eq}
use k2_market_data_platform.Base.Sort.{sort}
use k2_market_data_platform.Bars.{
  Trade, Kind, Key, Bar, Cut, new_bar, add_trade, key_for, take_trade, take_trades, nothing_cut,
  trade_before, row_before, cut, t_units, reference,
}
use k2_market_data_platform.Bars.Rows.{sum_of, sum_of-sort, total, value_of, total-insert}

-- a column that adds up what each trade brings
module _ (f : Bar → ℕ) (w : Trade → ℕ) (starts : (x : Trade) → f (new_bar x) ≡ 0)
    (adds : (b : Bar) (x : Trade) → f (add_trade b x) ≡ f b + w x) where
  started : (x : Trade) (o : Option Bar) → f (get_or o (new_bar x)) ≡ value_of f o
  started x none = starts x
  started x (some b) = refl

  take_trade-total :
      (kind : Kind) (t : ℕ) (c : Cut) (x : Trade)
      → total f (take_trade kind t c x).bars ≡ total f c.bars + w x
  unfolding take_trade
  take_trade-total kind t c x =
      let k = key_for t c.cum x in
      let b = get_or (lookup k c.bars) (new_bar x) in
      omega (arith, total-insert f k (add_trade b x) c.bars, adds b x, started x (lookup k c.bars))

  take_trades-total :
      (kind : Kind) (t : ℕ) (c : Cut) (trades : List Trade)
      → total f (take_trades kind t c trades).bars ≡ total f c.bars + sum_of w trades
  unfolding take_trades
  take_trades-total kind t c [] = omega arith
  take_trades-total kind t c (x ∷ trades) =
      omega (
        arith,
        take_trades-total kind t (take_trade kind t c x) trades,
        take_trade-total kind t c x,
      )

  cut-total :
      (kind : Kind) (t : ℕ) (trades : List Trade) → total f (cut kind t trades) ≡ sum_of w trades
  unfolding cut
  cut-total kind t trades =
      let sorted = sort trade_before trades in
      omega (
        arith,
        sum_of-sort (λ r. f r.1) row_before (take_trades kind t nothing_cut sorted).bars,
        take_trades-total kind t nothing_cut sorted,
        sum_of-sort w trade_before trades,
      )

pub reference_rows :
    (trades : List Trade) (kind : Kind) (threshold_e8 : ℕ) (rows : Dict Key Bar)
    → reference trades kind threshold_e8 ≡ some rows
    → cut kind (t_units kind threshold_e8) trades ≡ rows
unfolding reference
reference_rows [] kind threshold_e8 rows h = ground (arith, h)
reference_rows (x ∷ trades) kind threshold_e8 rows h = ground (arith, h)

-- No trade is lost and none counts twice: the bars' volumes, counts and values add up to those of the
-- trades, whatever the kind of bar and the threshold, where the reference returns at all.
pub reference-totals :
    (trades : List Trade) (kind : Kind) (threshold_e8 : ℕ) (rows : Dict Key Bar)
    → reference trades kind threshold_e8 ≡ some rows
    → (total (λ b. b.trade_count) rows ≡ length trades)
      × (total (λ b. b.volume_e8) rows ≡ sum_of (λ x. x.qty_e8) trades)
      × (total (λ b. b.quote_volume_e16) rows ≡ sum_of (λ x. x.price_e8 * x.qty_e8) trades)
unfolding new_bar add_trade
reference-totals trades kind threshold_e8 rows h =
    let t = t_units kind threshold_e8 in
    let e = sym (reference_rows trades kind threshold_e8 rows h) in
    (
      ap (λ d. total (λ b. b.trade_count) d) e
          ∙ cut-total (λ b. b.trade_count) (λ x. 1) (λ x. refl) (λ b x. omega arith) kind t trades
          ∙ ones trades,
      ap (λ d. total (λ b. b.volume_e8) d) e
          ∙ cut-total (λ b. b.volume_e8) (λ x. x.qty_e8) (λ x. refl) (λ b x. refl) kind t trades,
      ap (λ d. total (λ b. b.quote_volume_e16) d) e
          ∙ cut-total (λ b. b.quote_volume_e16) (λ x. x.price_e8 * x.qty_e8) (λ x. refl)
              (λ b x. refl) kind t trades,
    )
  where
    ones : (xs : List Trade) → sum_of (λ x. 1) xs ≡ length xs
    ones [] = refl
    ones (x ∷ xs) = omega (arith, ones xs)
