-- ===== src/Parity/Completeness.antt =====
-- Two tiers that wrote the same records pass.
use k2_market_data_platform.Base.{
  ◌≡◌, refl, String, true, false, none, some, List, [], ◌∷◌, All, arith,
}
use k2_market_data_platform.Base.Int.{ℤ, ◌-ℤ◌, -ℤ_parts}
use k2_market_data_platform.Base.Eq.{string_eq, int_eq}
use k2_market_data_platform.Base.Dict.{Dict, lookup, IsDict}
use k2_market_data_platform.Parity.{
  Norm, SymbolStats, passed, at_least, is_clean, max_ts_delta_us, abs_ℤ, dedupe_by_id, no_records,
  only_in, mismatches, max_ts_delta, compare_joined,
}
use k2_market_data_platform.Parity.Dedupe.{note_records-IsDict}

-- every entry of one dict is in the other
abbrev Included : Dict String Norm → Dict String Norm → Type 0
Included d e = All (λ p. lookup p.0 e ≡ some p.1) d

Included-add :
    (t : String) (n : Norm) (d e : Dict String Norm)
    → lookup t d ≡ none
    → Included d e
    → Included d ((t, n) ∷ e)
unfolding lookup
Included-add t n [] e h i = tt
Included-add t n ((u, m) ∷ d) e h i =
    ground (arith, Included-add t n d e, h, i.0, i.1, string_eq.beq_iff t u, string_eq.beq_iff u t)

Included-self : (d : Dict String Norm) → IsDict d → Included d d
unfolding lookup
Included-self [] h = tt
Included-self ((t, n) ∷ d) h =
    ground (arith, Included-add t n d d h.0 (Included-self d h.1), string_eq.beq_iff t t)

only_in-Included : (d e : Dict String Norm) → Included d e → only_in d e ≡ 0
unfolding only_in
only_in-Included [] e i = refl
only_in-Included ((t, n) ∷ d) e i = ground (arith, i.0, only_in-Included d e i.1)

mismatches-Included : (d e : Dict String Norm) → Included d e → mismatches d e ≡ 0
unfolding mismatches
mismatches-Included [] e i = refl
mismatches-Included ((t, n) ∷ d) e i = ground (
  arith,
  i.0,
  mismatches-Included d e i.1,
  int_eq.beq_iff n.price n.price,
  int_eq.beq_iff n.qty n.qty,
  string_eq.beq_iff n.side n.side,
)

self-zero : (a : ℤ) → abs_ℤ (a -ℤ a) ≡ 0
self-zero a = ground (arith, -ℤ_parts a a)

max_ts_delta-Included :
    (d e : Dict String Norm) → Included d e → at_least (max_ts_delta d e) max_ts_delta_us ≡ false
unfolding max_ts_delta
max_ts_delta-Included [] e i = refl
max_ts_delta-Included ((t, n) ∷ d) e i =
    ground (arith, i.0, max_ts_delta-Included d e i.1, self-zero n.exchange_ts_us)

passed-equal :
    (s : SymbolStats)
    → s.count_v2 ≡ s.count_v3
    → s.only_v2 ≡ 0
    → s.only_v3 ≡ 0
    → is_clean s.mismatched ≡ true
    → at_least s.max_delta max_ts_delta_us ≡ false
    → s.dup_inconsistent ≡ 0
    → passed s ≡ true
unfolding passed
passed-equal s c o p m d i = ground (arith, c, o, p, m, d, i)

-- A symbol of which both tiers wrote the same records passes, whatever venue re-sends are among them,
-- as long as no repeat disagrees with the first copy of its id.
pub compare_joined-passed :
    (symbol : String) (rows : List Norm)
    → (dedupe_by_id rows).inconsistent ≡ 0
    → passed (compare_joined symbol rows rows) ≡ true
unfolding compare_joined
compare_joined-passed symbol rows h =
    let d = (dedupe_by_id rows).by_id in
    let i : Included d d = Included-self d (kept rows) in
    passed-equal (compare_joined symbol rows rows) refl (only_in-Included d d i)
      (only_in-Included d d i) (ground (arith, mismatches-Included d d i))
      (max_ts_delta-Included d d i) (omega (arith, h))
  where
    kept : (rows : List Norm) → IsDict (dedupe_by_id rows).by_id
    kept rows = unfold dedupe_by_id in note_records-IsDict no_records rows tt
