-- ===== src/Parity/Agreement.antt =====
-- What a passing symbol says of the records of the two tiers.
use k2_market_data_platform.Base.{
  ◌<◌, ◌≡◌, sym, ap, ◌∙◌, subst, String, true, false, some, List, [], ◌∷◌, ◌++◌, All, arith,
}
use k2_market_data_platform.Base.Int.{◌-ℤ◌}
use k2_market_data_platform.Base.Eq.{string_eq, int_eq}
use k2_market_data_platform.Base.Dict.{Dict, lookup}
use k2_market_data_platform.Parity.{
  Norm, SymbolStats, passed, at_least, is_clean, max_ts_delta_us, same_trade, abs_ℤ, dedupe_by_id,
  mismatches, max_ts_delta, compare_joined,
}
use k2_market_data_platform.Parity.Dedupe.{Agrees, dedupe_by_id-Agrees}

passed-clean :
    (s : SymbolStats)
    → passed s ≡ true
    → (s.dup_inconsistent ≡ 0)
      × (is_clean s.mismatched ≡ true)
      × (at_least s.max_delta max_ts_delta_us ≡ false)
unfolding passed
passed-clean s h = ground (arith, h)

-- The same price, quantity and side, and times less than a millisecond apart.
abbrev pub Agree : Norm → Norm → Type 0
Agree a b =
    (a.price ≡ b.price)
    × (a.qty ≡ b.qty)
    × (a.side ≡ b.side)
    × (abs_ℤ (a.exchange_ts_us -ℤ b.exchange_ts_us) < max_ts_delta_us)

mismatches-none :
    (d e : Dict String Norm) (t : String) (a b : Norm)
    → mismatches d e ≡ 0
    → lookup t d ≡ some a
    → lookup t e ≡ some b
    → (a.price ≡ b.price) × (a.qty ≡ b.qty) × (a.side ≡ b.side)
unfolding mismatches lookup
mismatches-none [] e t a b m h k = ground (arith, h)
mismatches-none ((u, n) ∷ d) e t a b m h k = ground (
  arith,
  m,
  h,
  k,
  mismatches-none d e t a b,
  string_eq.beq_iff u t,
  int_eq.beq_iff n.price b.price,
  int_eq.beq_iff n.qty b.qty,
  string_eq.beq_iff n.side b.side,
)

max_ts_delta-below :
    (d e : Dict String Norm) (t : String) (a b : Norm)
    → at_least (max_ts_delta d e) max_ts_delta_us ≡ false
    → lookup t d ≡ some a
    → lookup t e ≡ some b
    → abs_ℤ (a.exchange_ts_us -ℤ b.exchange_ts_us) < max_ts_delta_us
unfolding max_ts_delta lookup
max_ts_delta-below [] e t a b m h k = ground (arith, h)
max_ts_delta-below ((u, n) ∷ d) e t a b m h k =
    ground (arith, m, h, k, max_ts_delta-below d e t a b, string_eq.beq_iff u t)

same_trade-eq :
    (f n : Norm)
    → same_trade f n ≡ true
    → (f.price ≡ n.price)
      × (f.qty ≡ n.qty)
      × (f.side ≡ n.side)
      × (f.exchange_ts_us ≡ n.exchange_ts_us)
unfolding same_trade
same_trade-eq f n h = ground (
  arith,
  h,
  int_eq.beq_iff f.price n.price,
  int_eq.beq_iff f.qty n.qty,
  string_eq.beq_iff f.side n.side,
  int_eq.beq_iff f.exchange_ts_us n.exchange_ts_us,
)

Agree-same :
    (a b f g : Norm) → same_trade f a ≡ true → same_trade g b ≡ true → Agree f g → Agree a b
Agree-same a b f g sa sb h =
    let x = same_trade-eq f a sa in
    let y = same_trade-eq g b sb in
    (
      sym x.0 ∙ h.0 ∙ y.0,
      sym x.1 ∙ h.1 ∙ y.1,
      sym x.2 ∙ h.2 ∙ y.2,
      subst (λ z. abs_ℤ (a.exchange_ts_us -ℤ z) < max_ts_delta_us) y.3
          (subst (λ z. abs_ℤ (z -ℤ g.exchange_ts_us) < max_ts_delta_us) x.3 h.3),
    )

middle :
    (P : Norm → Type 0) (xs : List Norm) (a : Norm) (ys : List Norm) → All P (xs ++ a ∷ ys) → P a
middle P [] a ys h = h.0
middle P (x ∷ xs) a ys h = middle P xs a ys h.1

-- Where the ids are joined and a symbol passes, any record of one tier and any record of the other that
-- have the same id have the same price, quantity and side, and times less than a millisecond apart:
-- repeats included, wherever they stand.
pub compare_joined-Agree :
    (symbol : String) (xs ys us vs : List Norm) (a b : Norm)
    → passed (compare_joined symbol (xs ++ a ∷ ys) (us ++ b ∷ vs)) ≡ true
    → a.trade_id ≡ b.trade_id
    → Agree a b
unfolding compare_joined
compare_joined-Agree symbol xs ys us vs a b h same =
    let v2 = xs ++ a ∷ ys in
    let v3 = us ++ b ∷ vs in
    let d = dedupe_by_id v2 in
    let e = dedupe_by_id v3 in
    let clean = passed-clean (compare_joined symbol v2 v3) h in
    let (f, f_at, sa) =
      middle (Agrees d.by_id) xs a ys (dedupe_by_id-Agrees v2 (omega (arith, clean.0))) in
    let (g, g_at, sb) =
      middle (Agrees e.by_id) us b vs (dedupe_by_id-Agrees v3 (omega (arith, clean.0))) in
    let f_at' = ap (λ t. lookup t d.by_id) (sym same) ∙ f_at in
    let three =
      mismatches-none d.by_id e.by_id b.trade_id f g (ground (arith, clean.1)) f_at' g_at in
    let near = max_ts_delta-below d.by_id e.by_id b.trade_id f g clean.2 f_at' g_at in
    Agree-same a b f g sa sb (three.0, three.1, three.2, near)
