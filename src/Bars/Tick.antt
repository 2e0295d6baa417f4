-- ===== src/Bars/Tick.antt =====
-- Bars of a number of trades.
use k2_market_data_platform.Base.{
  ℕ, suc, ◌+◌, ◌-◌, ◌*◌, ◌/◌, ◌≤◌, ◌<◌, ◌≡◌, refl, sym, ap, ◌∙◌, min, Bool, true, false, ◌&&◌,
  Option, none, some, List, [], ◌∷◌, get_or, if◌then◌else◌, Bool-cases, inl, inr, ltb, arith,
}
use k2_market_data_platform.Base.Dict.{Dict, IsDict, lookup, lookup-insert, insert-IsDict}
use k2_market_data_platform.Base.Eq.{◌=?◌, beq_eq, nat_eq, string_eq, pair_eq}
use k2_market_data_platform.Base.Sort.{sort, lookup-sort}
use k2_market_data_platform.Bars.{
  Trade, tick, Group, Key, Bar, Cut, new_bar, add_trade, group_of, key_for, take_trade, take_trades,
  nothing_cut, trade_before, row_before, cut, t_units, units, reference,
}
use k2_market_data_platform.Bars.Rows.{sum_of, sum_of-sort, value_of, held_at}
use k2_market_data_platform.Bars.Totals.{reference_rows}
use native.Mathlib.Nat.{div-mul-le_self, lt-div-mul-add, mul-le-mul_right}

abbrev pub count_at : Group → ℕ → Dict Key Bar → ℕ
count_at g s bars = held_at (λ b. b.trade_count) (g, s) bars

abbrev cum_at : Group → Dict Group ℕ → ℕ
cum_at g cum = get_or (lookup g cum) 0

-- one trade more fills the bar that it falls to, and no other
fills : (t n : ℕ) → 1 ≤ t → suc (min t (n - n / t * t)) ≡ min t (suc n - n / t * t)
fills t n one =
    ground (arith, one, div-mul-le_self n t, lt-div-mul-add {a = n} {b = t} (omega (arith, one)))

same_below : (t n s : ℕ) → 1 ≤ t → s < n / t → min t (n - s * t) ≡ min t (suc n - s * t)
same_below t n s one h = ground (
  arith,
  mul-le-mul_right {m = suc s} {n = n / t} t (omega (arith, h)),
  div-mul-le_self n t,
  next,
)
  where
    next : suc s * t ≡ s * t + t
    next = omega arith

same_above : (t n s : ℕ) → 1 ≤ t → n / t < s → min t (n - s * t) ≡ min t (suc n - s * t)
same_above t n s one h = ground (
  arith,
  mul-le-mul_right {m = suc (n / t)} {n = s} t (omega (arith, h)),
  lt-div-mul-add {a = n} {b = t} (omega (arith, one)),
  next,
)
  where
    next : suc (n / t) * t ≡ n / t * t + t
    next = omega arith

fill_step :
    (t n s here there : ℕ)
    → 1 ≤ t
    → here ≡ min t (n - n / t * t)
    → there ≡ min t (n - s * t)
    → (after : ℕ) → after ≡ (if (n / t) =? s then suc here else there)
    → after ≡ min t (suc n - s * t)
fill_step t n s here there one h k after e = elim (Bool-cases ((n / t) =? s)) [
  | inl same ↦
      e
      ∙ rw same (ap suc h ∙ fills t n one ∙ ap (λ m. min t (suc n - m * t)) (beq_eq (n / t) s same))
  | inr other ↦ e ∙ rw other (k ∙ elsewhere (ltb s (n / t)) refl other)
]
  where
    elsewhere :
        (b : Bool)
        → ltb s (n / t) ≡ b
        → ((n / t) =? s) ≡ false
        → min t (n - s * t) ≡ min t (suc n - s * t)
    elsewhere true l other = same_below t n s one (ground (arith, l))
    elsewhere false l other = same_above t n s one (ground (arith, l, other))

-- each bar of a group holds what its share of the group's trades is
abbrev Full : ℕ → Cut → Type 0
Full t c = (g : Group) (s : ℕ) → count_at g s c.bars ≡ min t (cum_at g c.cum - s * t)

more :
    (x : Trade) (o : Option Bar)
    → (add_trade (get_or o (new_bar x)) x).trade_count ≡ suc (value_of (λ b. b.trade_count) o)
unfolding add_trade new_bar
more x none = refl
more x (some b) = refl

count_at-take_trade :
    (t : ℕ) (c : Cut) (x : Trade) (g : Group) (s : ℕ)
    → count_at g s (take_trade tick t c x).bars ≡ (
        if key_for t c.cum x =? (g, s)
        then suc (count_at (key_for t c.cum x).0 (key_for t c.cum x).1 c.bars)
        else count_at g s c.bars)
unfolding take_trade
count_at-take_trade t c x g s =
    let k = key_for t c.cum x in
    let b = add_trade (get_or (lookup k c.bars) (new_bar x)) x in
    ap (λ o. value_of (λ b. b.trade_count) o) (lookup-insert k (g, s) b c.bars)
    ∙ either (k =? (g, s)) b (more x (lookup k c.bars))
  where
    either :
        (same : Bool) (b : Bar)
        → b.trade_count ≡ suc (held_at (λ b. b.trade_count) (key_for t c.cum x) c.bars)
        → value_of (λ b. b.trade_count) (if same then some b else lookup (g, s) c.bars) ≡ (
            if same
            then suc (held_at (λ b. b.trade_count) (key_for t c.cum x) c.bars)
            else count_at g s c.bars)
    either true b e = e
    either false b e = refl

cum_at-take_trade :
    (t : ℕ) (c : Cut) (x : Trade) (g : Group)
    → cum_at g (take_trade tick t c x).cum ≡ cum_at g c.cum + (if group_of x =? g then 1 else 0)
unfolding take_trade units
cum_at-take_trade t c x g =
    ap (λ o. get_or o 0) (lookup-insert (group_of x) g (cum_at (group_of x) c.cum + 1) c.cum)
    ∙ elim (Bool-cases (group_of x =? g)) [
      | inl same ↦ rw same (ap (λ h. cum_at h c.cum + 1) (beq_eq (group_of x) g same))
      | inr other ↦ rw other (omega arith)
    ]

take_trade-Full : (t : ℕ) (c : Cut) (x : Trade) → 1 ≤ t → Full t c → Full t (take_trade tick t c x)
unfolding key_for
take_trade-Full t c x one full g s =
    let g0 = group_of x in
    let n = cum_at g0 c.cum in
    elim (Bool-cases (g0 =? g)) [
      | inl same ↦
          let same_g = beq_eq g0 g same in
          filled n (ap (λ h. cum_at h c.cum) same_g)
            (count_at-take_trade t c x g s
              ∙ rw same (
                  ap
                    (λ h.
                      if (n / t) =? s then suc (count_at h (n / t) c.bars) else count_at g s c.bars)
                    same_g))
            (cum_at-take_trade t c x g ∙ rw same refl)
      | inr other ↦
          passed_by
            (count_at-take_trade t c x g s
              ∙ ap
                  (λ b.
                    if b && (n / t) =? s
                    then suc (count_at g0 (n / t) c.bars)
                    else count_at g s c.bars)
                  other)
            (cum_at-take_trade t c x g ∙ ap (λ b. cum_at g c.cum + (if b then 1 else 0)) other)
    ]
  where
    filled :
        (n : ℕ)
        → n ≡ cum_at g c.cum
        → count_at g s (take_trade tick t c x).bars
          ≡ (if (n / t) =? s then suc (count_at g (n / t) c.bars) else count_at g s c.bars)
        → cum_at g (take_trade tick t c x).cum ≡ cum_at g c.cum + 1
        → count_at g s (take_trade tick t c x).bars
          ≡ min t (cum_at g (take_trade tick t c x).cum - s * t)
    filled n e h k =
        fill_step t n s (count_at g (n / t) c.bars) (count_at g s c.bars) one
          (full g (n / t) ∙ ap (λ m. min t (m - n / t * t)) (sym e))
          (full g s ∙ ap (λ m. min t (m - s * t)) (sym e))
          (count_at g s (take_trade tick t c x).bars) h
        ∙ ap (λ m. min t (m - s * t)) (omega (arith, e, k))

    passed_by :
        count_at g s (take_trade tick t c x).bars ≡ count_at g s c.bars
        → cum_at g (take_trade tick t c x).cum ≡ cum_at g c.cum + 0
        → count_at g s (take_trade tick t c x).bars
          ≡ min t (cum_at g (take_trade tick t c x).cum - s * t)
    passed_by h k = h ∙ full g s ∙ ap (λ m. min t (m - s * t)) (omega (arith, k))

-- how many trades of a group there are
abbrev pub trades_of : Group → List Trade → ℕ
trades_of g trades = sum_of (λ x. if group_of x =? g then 1 else 0) trades

take_trades-Full :
    (t : ℕ) (c : Cut) (trades : List Trade)
    → 1 ≤ t
    → Full t c
    → Full t (take_trades tick t c trades)
unfolding take_trades
take_trades-Full t c [] one full = full
take_trades-Full t c (x ∷ trades) one full =
    take_trades-Full t (take_trade tick t c x) trades one (take_trade-Full t c x one full)

take_trades-cum :
    (t : ℕ) (c : Cut) (trades : List Trade) (g : Group)
    → cum_at g (take_trades tick t c trades).cum ≡ cum_at g c.cum + trades_of g trades
unfolding take_trades
take_trades-cum t c [] g = omega arith
take_trades-cum t c (x ∷ trades) g =
    omega (arith, take_trades-cum t (take_trade tick t c x) trades g, cum_at-take_trade t c x g)

take_trades-IsDict :
    (t : ℕ) (c : Cut) (trades : List Trade)
    → IsDict c.bars
    → IsDict (take_trades tick t c trades).bars
unfolding take_trades take_trade
take_trades-IsDict t c [] d = d
take_trades-IsDict t c (x ∷ trades) d = take_trades-IsDict t (take_trade tick t c x) trades (
    insert-IsDict (key_for t c.cum x)
      (add_trade (get_or (lookup (key_for t c.cum x) c.bars) (new_bar x)) x) c.bars d)

-- The tick bars of an exchange, a symbol and a day hold the threshold's number of trades each, as far as
-- the day's trades go, and the next one the rest: the bar of number s holds what is left of them after
-- s bars, up to the threshold. In whatever order the trades are given. The threshold is a trade or more.
pub reference-tick :
    (trades : List Trade) (threshold_e8 : ℕ) (rows : Dict Key Bar) (g : Group) (s : ℕ)
    → 1 ≤ t_units tick threshold_e8
    → reference trades tick threshold_e8 ≡ some rows
    → count_at g s rows
      ≡ min (t_units tick threshold_e8) (trades_of g trades - s * t_units tick threshold_e8)
unfolding cut lookup
reference-tick trades threshold_e8 rows g s one h =
    let t = t_units tick threshold_e8 in
    let sorted = sort trade_before trades in
    let c = take_trades tick t nothing_cut sorted in
    ap (λ d. count_at g s d) (sym (reference_rows trades tick threshold_e8 rows h))
    ∙ ap (λ o. value_of (λ b. b.trade_count) o)
        (lookup-sort row_before (g, s) c.bars (take_trades-IsDict t nothing_cut sorted tt))
    ∙ take_trades-Full t nothing_cut sorted one (λ g s. omega arith) g s
    ∙ ap (λ m. min t (m - s * t))
        (omega (
          arith,
          take_trades-cum t nothing_cut sorted g,
          sum_of-sort (λ x. if group_of x =? g then 1 else 0) trade_before trades,
        ))
