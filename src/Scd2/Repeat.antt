-- ===== src/Scd2/Repeat.antt =====
-- A cycle that is repeated with the same registry.
use k2_market_data_platform.Base.{
  ℕ, String, ◌≡◌, ◌∙◌, refl, sym, ap, subst, inl, inr, true, Bool-cases, Option, none, some, List,
  [], ◌∷◌, ◌++◌, map, arith, if◌then◌else◌,
}
use k2_market_data_platform.Base.Eq.{Eq, ◌=?◌, beq_refl, string_eq}
use k2_market_data_platform.Base.Dict.{Dict, IsDict, lookup}
use k2_market_data_platform.Scd2.{
  Row, Version, Changes, epoch, now_true, now_gone, version, contains, changes_of, merge_dim,
  attr_hash,
}
use k2_market_data_platform.Scd2.History.{
  RowsKeyed, of_key, at_key, nothing, change_at, last_open, close_open,
}
use k2_market_data_platform.Scd2.Merge.{step_history, of_key-merge_dim, changes_of-at}
use k2_market_data_platform.Scd2.Steps.{change_cases, applied, applied-nothing, applied_open}

module _ {K : Type 0} ⦃e : Eq K⦄ (sha : String → String) (tracked : List String) where
  settled_current :
      (k : K) (old : Option (Version K)) (row : Row K) (ts later : ℕ)
      → change_at sha tracked k
          (last_open old (change_at sha tracked k old (some row) ts).fresh)
          (some row)
          later
        ≡ nothing
  unfolding now_true version
  settled_current k none row ts later = rw (beq_refl (attr_hash sha tracked row)) refl
  settled_current k (some v) row ts later =
      elim (Bool-cases (v.hash =? attr_hash sha tracked row)) [
        | inl same ↦ ground (arith, same)
        | inr other ↦ ground (arith, other, beq_refl (attr_hash sha tracked row))
      ]

  settled_gone :
      (k : K) (old : Option (Version K)) (ts later : ℕ)
      → change_at sha tracked k
          (last_open old (change_at sha tracked k old none ts).fresh)
          none
          later
        ≡ nothing
  unfolding now_gone version
  settled_gone k none ts later = refl
  settled_gone k (some v) ts later = ground arith

  last_open-last :
      (found : Option (Version K)) (h : List (Version K)) (w : Version K)
      → w.is_current ≡ true
      → last_open found (h ++ w ∷ []) ≡ some w
  last_open-last found [] w e = rw e refl
  last_open-last found (v ∷ h) w e = last_open-last (if v.is_current then some v else found) h w e

  -- what is open after a step is what the step opened, or else what was open before it
  last_open-step :
      (k : K) (h : List (Version K)) (current : Option (Row K)) (ts : ℕ) (old : Option (Version K))
      → last_open none h ≡ old
      → last_open none (applied sha tracked k (change_at sha tracked k old current ts) ts h)
        ≡ last_open old (change_at sha tracked k old current ts).fresh
  unfolding applied now_true version
  last_open-step k h none ts none e =
      ap (λ (x : List (Version K)). last_open none x) (applied-nothing sha tracked k ts h) ∙ e
  last_open-step k h (some row) ts none e =
      last_open-last none (map (close_open (contains k []) ts) h) (version sha tracked row epoch ts)
        refl
  last_open-step k h current ts (some v) e = elim (change_cases sha tracked k v current ts) [
    | inl same ↦
        subst
          (λ (c : Changes K).
            last_open none (applied sha tracked k c ts h) ≡ last_open (some v) c.fresh)
          (sym same)
          (ap (λ (x : List (Version K)). last_open none x) (applied-nothing sha tracked k ts h) ∙ e)
    | inr (w, opened, opens) ↦
        subst
          (λ (c : Changes K).
            last_open none (applied sha tracked k c ts h) ≡ last_open (some v) c.fresh)
          (sym opened)
          (ap (λ (x : List (Version K)). last_open none x) (applied_open sha tracked k ts h w)
            ∙ last_open-last none (map (close_open true ts) h) w opens.1
            ∙ sym (last_open-last (some v) [] w opens.1))
  ]

  no_close :
      (close : List K) → ((k : K) → (if contains k close then k ∷ [] else []) ≡ []) → close ≡ []
  unfolding contains
  no_close [] each = refl
  no_close (x ∷ xs) each = ground (arith, each x, beq_refl x)

  no_fresh : (fresh : List (Version K)) → ((k : K) → of_key k fresh ≡ []) → fresh ≡ []
  no_fresh [] each = refl
  no_fresh (v ∷ fresh) each = ground (arith, each v.row.key, beq_refl v.row.key)

  nothing_for_any : (c : Changes K) → ((k : K) → at_key k c ≡ nothing) → c ≡ nothing
  nothing_for_any c each =
      let none_closed = no_close c.close (λ k. ap (λ (x : Changes K). x.close) (each k)) in
      let none_fresh = no_fresh c.fresh (λ k. ap (λ (x : Changes K). x.fresh) (each k)) in
      ground (arith, none_closed, none_fresh)

  settled :
      (k : K) (old : Option (Version K)) (current : Option (Row K)) (ts later : ℕ)
      → change_at sha tracked k
          (last_open old (change_at sha tracked k old current ts).fresh)
          current
          later
        ≡ nothing
  settled k old none ts later = settled_gone k old ts later
  settled k old (some row) ts later = settled_current k old row ts later

  step_history-settled :
      (k : K) (h : List (Version K)) (current : Option (Row K)) (ts later : ℕ)
      → change_at sha tracked k
          (last_open none (step_history sha tracked k h current ts))
          current
          later
        ≡ nothing
  unfolding applied
  step_history-settled k h current ts later =
      ap (λ (o : Option (Version K)). change_at sha tracked k o current later)
        (last_open-step k h current ts (last_open none h) refl)
      ∙ settled k (last_open none h) current ts later

  -- A cycle that is repeated with the same registry, at whatever time, closes nothing and inserts
  -- nothing, whatever the table held before the first of the two.
  pub changes_of-merge_dim :
      (table : List (Version K)) (current : Dict K (Row K)) (ts later : ℕ)
      → IsDict current
      → RowsKeyed current
      → changes_of sha tracked (merge_dim sha tracked table current ts) current later ≡ nothing
  changes_of-merge_dim table current ts later h w =
      nothing_for_any
        (changes_of sha tracked (merge_dim sha tracked table current ts) current later)
        (λ k.
          changes_of-at sha tracked k (merge_dim sha tracked table current ts) current later h w
          ∙ ap
              (λ (x : List (Version K)).
                change_at sha tracked k (last_open none x) (lookup k current) later)
              (of_key-merge_dim sha tracked k table current ts h w)
          ∙ step_history-settled k (of_key k table) (lookup k current) ts later)
