-- ===== src/Scd2/Runs.antt =====
-- Many cycles, from an empty table.
use k2_market_data_platform.Base.{
  ℕ, ◌≤◌, ◌<◌, String, ◌≡◌, refl, sym, subst, inl, inr, ◌⊎◌, List, [], ◌∷◌, arith,
}
use k2_market_data_platform.Base.Eq.{Eq, string_eq}
use k2_market_data_platform.Base.Dict.{Dict, IsDict, lookup}
use k2_market_data_platform.Scd2.{Row, Version, epoch, forever, merge_dim}
use k2_market_data_platform.Scd2.History.{RowsKeyed, of_key}
use k2_market_data_platform.Scd2.Merge.{of_key-merge_dim}
use k2_market_data_platform.Scd2.Tiling.{holding, holding-Tiled, IsHistory}
use k2_market_data_platform.Scd2.Steps.{step_history-IsHistory}

-- One run of the security master: what the registry says, and the run's timestamp.
pub record Cycle (K : Type 0) : Type 0 where
  pub current : Dict K (Row K)
  pub run_ts : ℕ

module _ {K : Type 0} ⦃e : Eq K⦄ (sha : String → String) (tracked : List String) where
  unfoldable pub run_all : List (Version K) → List (Cycle K) → List (Version K)
  run_all table [] = table
  run_all table (c ∷ cycles) = run_all (merge_dim sha tracked table c.current c.run_ts) cycles

  -- The registry lists each key once, and no run is stamped before the one that it follows.
  abbrev pub InOrder : ℕ → List (Cycle K) → Type 0
  InOrder now [] = Unit
  InOrder now (c ∷ cycles) =
      (now ≤ c.run_ts) × IsDict c.current × RowsKeyed c.current × InOrder c.run_ts cycles

  run_all-IsHistory :
      (now : ℕ) (k : K) (table : List (Version K)) (cycles : List (Cycle K))
      → InOrder now cycles
      → IsHistory now (of_key k table)
      → (later : ℕ) × IsHistory later (of_key k (run_all table cycles))
  unfolding run_all
  run_all-IsHistory now k table [] o h = (now, h)
  run_all-IsHistory now k table (c ∷ cycles) o h =
      run_all-IsHistory c.run_ts k (merge_dim sha tracked table c.current c.run_ts) cycles o.3 (
        subst (λ x. IsHistory c.run_ts x)
          (sym (of_key-merge_dim sha tracked k table c.current c.run_ts o.1 o.2))
          (step_history-IsHistory sha tracked k now c.run_ts (of_key k table) (lookup k c.current) h
            o.0))

  -- After any runs in order, from an empty table, a key has no version at all, or exactly one that
  -- holds at every instant from the epoch up to the sentinel: an as-of join neither misses nor
  -- doubles a row.
  pub run_all-holding :
      (cycles : List (Cycle K)) (k : K) (x : ℕ)
      → InOrder 0 cycles
      → x < forever
      → (of_key k (run_all [] cycles) ≡ []) ⊎ (holding x (of_key k (run_all [] cycles)) ≡ 1)
  run_all-holding cycles k x o l =
      let (later, h) = run_all-IsHistory 0 k [] cycles o (inl refl) in
      elim h [
        | inl none_yet ↦ inl none_yet
        | inr t ↦ inr (holding-Tiled later epoch x (of_key k (run_all [] cycles)) t (omega arith) l)
      ]
