-- ===== src/Scd2/Steps.antt =====
-- What one cycle does to the versions of one key.
use k2_market_data_platform.Base.{
  ℕ, ◌≤◌, String, ◌≡◌, ◌∙◌, refl, sym, ap, subst, inl, inr, ◌⊎◌, true, false, Bool-cases, Option,
  none, some, List, [], ◌∷◌, ◌++◌, map, append-nil, arith,
}
use k2_market_data_platform.Base.Eq.{Eq, ◌=?◌, beq_refl, string_eq}
use k2_market_data_platform.Scd2.{
  Row, Version, Changes, epoch, now_true, now_gone, version, contains, attr_hash,
}
use k2_market_data_platform.Scd2.History.{nothing, change_at, close_open}
use k2_market_data_platform.Scd2.Merge.{step_history}
use k2_market_data_platform.Scd2.Tiling.{
  Tiled, Tiled-later, Tiled-next, close_open-false, last_open-Tiled, Opens, IsHistory,
}

module _ {K : Type 0} ⦃e : Eq K⦄ (sha : String → String) (tracked : List String) (k : K) where
  -- a key with an open version is left alone, or closed and opened again from the run on
  pub change_cases :
      (v : Version K) (current : Option (Row K)) (ts : ℕ)
      → (change_at sha tracked k (some v) current ts ≡ nothing)
        ⊎ ((w : Version K) × (change_at sha tracked k (some v) current ts
              ≡ record { close = k ∷ []; fresh = w ∷ [] })
            × Opens ts w)
  unfolding now_true now_gone version
  change_cases v (some row) ts = elim (Bool-cases (v.hash =? attr_hash sha tracked row)) [
    | inl same ↦ inl (rw same refl)
    | inr other ↦ inr (version sha tracked row ts ts, rw other refl, (refl, refl, refl))
  ]
  change_cases v none ts = elim (Bool-cases v.row.subscribed) [
    | inl live ↦ inr (
      version sha tracked (record (v.row) { subscribed = false }) ts ts,
      ground (arith, live),
      (refl, refl, refl),
    )
    | inr gone ↦ inl (rw gone refl)
  ]

  unfoldable pub applied : Changes K → ℕ → List (Version K) → List (Version K)
  applied c ts h = map (close_open (contains k c.close) ts) h ++ c.fresh

  pub applied-nothing : (ts : ℕ) (h : List (Version K)) → applied nothing ts h ≡ h
  unfolding applied contains
  applied-nothing ts h = append-nil (map (close_open false ts) h) ∙ close_open-false ts h

  pub applied_open :
      (ts : ℕ) (h : List (Version K)) (w : Version K)
      → applied (record { close = k ∷ []; fresh = w ∷ [] }) ts h
        ≡ map (close_open true ts) h ++ w ∷ []
  unfolding applied contains
  applied_open ts h w = rw (beq_refl k) refl

  step_history-Tiled :
      (now ts : ℕ) (h : List (Version K)) (current : Option (Row K))
      → Tiled now epoch h
      → now ≤ ts
      → Tiled ts epoch (step_history sha tracked k h current ts)
  unfolding applied
  step_history-Tiled now ts h current t l =
      let (v, found) = last_open-Tiled now epoch none h t in
      let c = change_at sha tracked k (some v) current ts in
      let step : step_history sha tracked k h current ts ≡ applied c ts h =
        ap (λ (old : Option (Version K)). applied (change_at sha tracked k old current ts) ts h)
          found in
      subst (λ x. Tiled ts epoch x) (sym step)
        (elim (change_cases v current ts) [
          | inl same ↦
              subst (λ x. Tiled ts epoch x)
                (sym (ap (λ (x : Changes K). applied x ts h) same ∙ applied-nothing ts h))
                (Tiled-later now ts epoch h t l)
          | inr (w, opened, opens) ↦
              subst (λ x. Tiled ts epoch x)
                (sym (ap (λ (x : Changes K). applied x ts h) opened ∙ applied_open ts h w))
                (Tiled-next now ts epoch h w t l opens.0 opens.1 opens.2)
        ])

  step_history-new :
      (ts : ℕ) (current : Option (Row K)) → IsHistory ts (step_history sha tracked k [] current ts)
  unfolding now_true version
  step_history-new ts none = inl refl
  step_history-new ts (some row) = inr (refl, refl, refl, omega arith)

  pub step_history-IsHistory :
      (now ts : ℕ) (h : List (Version K)) (current : Option (Row K))
      → IsHistory now h
      → now ≤ ts
      → IsHistory ts (step_history sha tracked k h current ts)
  step_history-IsHistory now ts h current (inl new) l =
      subst (λ x. IsHistory ts (step_history sha tracked k x current ts)) (sym new)
        (step_history-new ts current)
  step_history-IsHistory now ts h current (inr t) l = inr (step_history-Tiled now ts h current t l)
