-- ===== src/Scd2/Interrupted.antt =====
-- What an interruption between the two commits of a cycle leaves behind.
use mathlib.Core.Path.{ap₂}
use k2_market_data_platform.Base.{
  ℕ, ◌+◌, ◌≤◌, ◌<◌, String, ◌≡◌, ◌∙◌, ap, Bool, true, false, Option, none, some, List, [], ◌∷◌,
  ◌++◌, map, arith,
}
use k2_market_data_platform.Base.Eq.{Eq, string_eq}
use k2_market_data_platform.Base.Dict.{Dict, IsDict, lookup}
use k2_market_data_platform.Scd2.{
  Row, Version, epoch, forever, now_true, version, contains, merge_close, changes_of, merge_dim,
}
use k2_market_data_platform.Scd2.History.{RowsKeyed, of_key, change_at, last_open, close_open}
use k2_market_data_platform.Scd2.Merge.{step_history, of_key-merge_dim, of_key-merge_close}
use k2_market_data_platform.Scd2.Tiling.{holding, Tiled, close_open-false}
use k2_market_data_platform.Scd2.Steps.{applied}

-- a history whose last version is closed too has no open version, and holds up to the close
last_open-closed :
    {K : Type 0} (now a ts : ℕ) (h : List (Version K))
    → Tiled now a h
    → last_open none (map (close_open true ts) h) ≡ none
last_open-closed now a ts [] t = elim t [ ]
last_open-closed now a ts (v ∷ []) t = ground arith
last_open-closed now a ts (v ∷ w ∷ h) t =
    ground (arith, last_open-closed now v.valid_to ts (w ∷ h) t.3)

closed-before :
    {K : Type 0} (now a ts x : ℕ) (h : List (Version K))
    → Tiled now a h
    → x < a
    → holding x (map (close_open true ts) h) ≡ 0
closed-before now a ts x [] t l = elim t [ ]
closed-before now a ts x (v ∷ []) t l = ground arith
closed-before now a ts x (v ∷ w ∷ h) t l =
    ground (arith, closed-before now v.valid_to ts x (w ∷ h) t.3)

holding-closed :
    {K : Type 0} (now a ts x : ℕ) (h : List (Version K))
    → Tiled now a h
    → a ≤ x
    → x < ts
    → holding x (map (close_open true ts) h) ≡ 1
holding-closed now a ts x [] t l u = elim t [ ]
holding-closed now a ts x (v ∷ []) t l u = ground arith
holding-closed now a ts x (v ∷ w ∷ h) t l u = ground (
  arith,
  closed-before now v.valid_to ts x (w ∷ h) t.3,
  holding-closed now v.valid_to ts x (w ∷ h) t.3,
)

holding-append :
    {K : Type 0} (x : ℕ) (h k : List (Version K)) → holding x (h ++ k) ≡ holding x h + holding x k
holding-append x [] k = omega arith
holding-append x (v ∷ h) k = omega (arith, holding-append x h k)

module _ {K : Type 0} ⦃e : Eq K⦄ (sha : String → String) (tracked : List String) where
  reopened :
      (k : K) (h : List (Version K)) (row : Row K) (later x : ℕ)
      → last_open none h ≡ none
      → x < forever
      → holding x (step_history sha tracked k h (some row) later) ≡ holding x h + 1
  unfolding now_true version contains applied
  reopened k h row later x none_open l =
      let w = version sha tracked row epoch later in
      ap
        (λ (o : Option (Version K)).
          holding x (applied sha tracked k (change_at sha tracked k o (some row) later) later h))
        none_open
      ∙ holding-append x (map (close_open false later) h) (w ∷ [])
      ∙ ground (arith, ap (λ (v : List (Version K)). holding x v) (close_open-false later h))

  -- If a cycle is interrupted after its close and before its append, the next cycle that sees the key
  -- opens it from the epoch again, on top of its closed versions: every instant up to the interrupted
  -- run then has two versions of the key.
  pub interrupted-doubles :
      (k : K) (table : List (Version K)) (current next : Dict K (Row K)) (row : Row K)
      (now ts later x : ℕ)
      → Tiled now epoch (of_key k table)
      → contains k (changes_of sha tracked table current ts).close ≡ true
      → IsDict next
      → RowsKeyed next
      → lookup k next ≡ some row
      → x < ts
      → ts ≤ forever
      → holding x (
          of_key k (
            merge_dim sha tracked
              (merge_close (changes_of sha tracked table current ts).close ts table)
              next
              later))
        ≡ 2
  interrupted-doubles k table current next row now ts later x t closed h w there l u =
      let close = (changes_of sha tracked table current ts).close in
      let hist = of_key k table in
      let shut = map (close_open true ts) hist in
      let same : of_key k (merge_close close ts table) ≡ shut =
        of_key-merge_close sha tracked k close ts table
        ∙ ap (λ (b : Bool). map (close_open b ts) hist) closed in
      ap (λ (v : List (Version K)). holding x v)
        (of_key-merge_dim sha tracked k (merge_close close ts table) next later h w
          ∙ ap₂
              (λ (v : List (Version K)) (c : Option (Row K)). step_history sha tracked k v c later)
              same there)
      ∙ reopened k shut row later x (last_open-closed now epoch ts hist t) (omega arith)
      ∙ omega (arith, holding-closed now epoch ts x hist t (omega arith) l)
