-- ===== src/Tests/Scd2Tests.antt =====
-- docker/lake/scd2.py on one instrument.
use k2_market_data_platform.Base.{ℕ, String, ◌≡◌, ◌⊎◌, refl, true, List, [], ◌∷◌, arith}
use k2_market_data_platform.Base.Eq.{string_eq}
use k2_market_data_platform.Base.Dict.{lookup, insert}
use k2_market_data_platform.Scd2.{
  Row, Version, epoch, text, render, cell, join, attr_hash, version, now_true, now_gone,
  plan_current, plan_gone, plan, open_versions, contains, close_version, merge_close, changes_of,
  merge_dim,
}
use k2_market_data_platform.Scd2.History.{of_key, nothing}
use k2_market_data_platform.Scd2.Tiling.{holding}
use k2_market_data_platform.Scd2.Runs.{Cycle, run_all, run_all-holding}
use k2_market_data_platform.Scd2.Repeat.{changes_of-merge_dim}
use k2_market_data_platform.Scd2.Interrupted.{interrupted-doubles}

program : Unit {0}
unfolding render cell join attr_hash version now_true now_gone plan_current plan_gone plan
    open_versions contains close_version merge_close changes_of merge_dim run_all lookup insert
program = tt

-- the payload for its own hash
abbrev same : String → String
same s = s

abbrev tracked : List String
tracked = "tick_size" ∷ "subscribed" ∷ []

abbrev row_at : String → Row String
row_at tick = record { key = "BTC/USD"; subscribed = true; columns = ("tick_size", text tick) ∷ [] }

abbrev cycle_at : String → ℕ → Cycle String
cycle_at tick ts = record { current = ("BTC/USD", row_at tick) ∷ []; run_ts = ts }

abbrev cycles : List (Cycle String)
cycles = cycle_at "0.1" 100 ∷ cycle_at "0.5" 200 ∷ record { current = []; run_ts = 300 } ∷ []

abbrev opened : List (Version String)
opened = version same tracked (row_at "0.1") epoch 100 ∷ []

two_versions : run_all same tracked [] (cycle_at "0.1" 100 ∷ cycle_at "0.1" 150 ∷ []) ≡ opened
unfolding program
two_versions = refl

run_all-holding_example :
    (of_key "BTC/USD" (run_all same tracked [] cycles) ≡ [])
    ⊎ (holding 250 (of_key "BTC/USD" (run_all same tracked [] cycles)) ≡ 1)
unfolding lookup
run_all-holding_example =
    run_all-holding same tracked cycles "BTC/USD" 250
      (
        omega arith,
        (refl, tt),
        (refl, tt),
        (omega arith, (refl, tt), (refl, tt), (omega arith, tt, tt, tt)),
      )
      (omega arith)

changes_of-merge_dim_example :
    changes_of same tracked
      (merge_dim same tracked opened (cycle_at "0.5" 200).current 200)
      (cycle_at "0.5" 200).current
      300
    ≡ nothing
unfolding lookup
changes_of-merge_dim_example =
    changes_of-merge_dim same tracked opened (cycle_at "0.5" 200).current 200 300 (refl, tt)
      (refl, tt)

interrupted-doubles_example :
    holding 150 (
      of_key "BTC/USD" (
        merge_dim same tracked
          (merge_close
            (changes_of same tracked opened (cycle_at "0.5" 200).current 200).close
            200
            opened)
          (cycle_at "0.5" 300).current
          300))
    ≡ 2
unfolding program
interrupted-doubles_example =
    interrupted-doubles same tracked "BTC/USD" opened (cycle_at "0.5" 200).current
      (cycle_at "0.5" 300).current (row_at "0.5") 100 200 300 150 (refl, refl, refl, omega arith)
      refl (refl, tt) (refl, tt) refl (omega arith) (omega arith)
