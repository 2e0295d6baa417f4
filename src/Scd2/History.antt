-- ===== src/Scd2/History.antt =====
-- One cycle's plan seen from one natural key: the rows of a key depend on nothing but that key.
use k2_market_data_platform.Base.{
  ℕ, String, ◌≡◌, ◌∙◌, refl, sym, ap, inl, inr, Bool, true, false, Bool-cases, Option-cases, Option,
  none, some, List, [], ◌∷◌, ◌++◌, append-nil, All, arith, if◌then◌else◌,
}
use k2_market_data_platform.Base.Eq.{Eq, ◌=?◌}
use k2_market_data_platform.Base.Dict.{Dict, IsDict, lookup}
use k2_market_data_platform.Scd2.{
  Row, Version, Changes, now_true, now_gone, both, plan_current, plan_gone, plan, contains, version,
}

-- each row of a keyed dict has the key that it stands at
abbrev pub RowsKeyed : {K : Type 0} → Dict K (Row K) → Type 0
RowsKeyed {K} d = All (λ (x : K × Row K). x.1.key ≡ x.0) d

abbrev pub VersionsKeyed : {K : Type 0} → Dict K (Version K) → Type 0
VersionsKeyed {K} d = All (λ (x : K × Version K). x.1.row.key ≡ x.0) d

module _ {K : Type 0} where
  -- the open version that the table has for a key: the last one, if several
  abbrev pub last_open : Option (Version K) → List (Version K) → Option (Version K)
  last_open found [] = found
  last_open found (v ∷ h) = last_open (if v.is_current then some v else found) h

  -- what the MERGE does to a version of a key that is closed, or is not
  abbrev pub close_open : Bool → ℕ → Version K → Version K
  close_open closing ts v =
      if v.is_current
      then if closing then record v { valid_to = ts; is_current = false } else v
      else v

module _ {K : Type 0} ⦃e : Eq K⦄ where
  -- the versions of one key, in the order of the table
  abbrev pub of_key : K → List (Version K) → List (Version K)
  of_key k [] = []
  of_key k (v ∷ table) = let rest = of_key k table in if v.row.key =? k then v ∷ rest else rest

  pub of_key-append :
      (k : K) (xs ys : List (Version K)) → of_key k (xs ++ ys) ≡ of_key k xs ++ of_key k ys
  of_key-append k [] ys = refl
  of_key-append k (x ∷ xs) ys = ground (arith, of_key-append k xs ys)

  contains-append :
      (k : K) (xs ys : List K)
      → contains k (xs ++ ys) ≡ (if contains k xs then true else contains k ys)
  unfolding contains
  contains-append k [] ys = refl
  contains-append k (x ∷ xs) ys = ground (arith, contains-append k xs ys)

  abbrev pub nothing : Changes K
  nothing = record { close = []; fresh = [] }

  abbrev pub at_key : K → Changes K → Changes K
  at_key k c = record {
    close = if contains k c.close then k ∷ [] else [];
    fresh = of_key k c.fresh;
  }

module _ {K : Type 0} ⦃e : Eq K⦄ (sha : String → String) (tracked : List String) where
  -- what a cycle does to one key
  abbrev pub change_at : K → Option (Version K) → Option (Row K) → ℕ → Changes K
  change_at k old (some row) ts = now_true sha tracked old k row ts
  change_at k (some v) none ts = now_gone sha tracked k v ts
  change_at k none none ts = nothing

  -- the changes of one key are about that key alone
  now_true-at :
      (k j : K) (old : Option (Version K)) (row : Row K) (ts : ℕ)
      → row.key ≡ j
      → at_key k (now_true sha tracked old j row ts)
        ≡ (if j =? k then now_true sha tracked old k row ts else nothing)
  unfolding now_true version contains
  now_true-at k j none row ts h = ground (arith, e.beq_iff j k)
  now_true-at k j (some v) row ts h = ground (arith, e.beq_iff j k)

  now_gone-at :
      (k j : K) (v : Version K) (ts : ℕ)
      → v.row.key ≡ j
      → at_key k (now_gone sha tracked j v ts)
        ≡ (if j =? k then now_gone sha tracked k v ts else nothing)
  unfolding now_gone version contains
  now_gone-at k j v ts h = ground (arith, e.beq_iff j k)

  both-left : (k : K) (a b : Changes K) → at_key k a ≡ nothing → at_key k (both a b) ≡ at_key k b
  both-left k a b h = ground (
    arith,
    contains-append k a.close b.close,
    of_key-append k a.fresh b.fresh,
    ap (λ (c : Changes K). c.fresh) h,
    ap (λ (c : Changes K). c.close) h,
  )

  both-right : (k : K) (a b : Changes K) → at_key k b ≡ nothing → at_key k (both a b) ≡ at_key k a
  both-right k a b h = ground (
    arith,
    contains-append k a.close b.close,
    of_key-append k a.fresh b.fresh,
    append-nil (of_key k a.fresh),
    ap (λ (c : Changes K). c.fresh) h,
    ap (λ (c : Changes K). c.close) h,
  )

  module _ (previous : Dict K (Version K)) (current : Dict K (Row K)) (ts : ℕ) (k : K) where
    abbrev true_at : Option (Row K) → Changes K
    true_at none = nothing
    true_at (some row) = now_true sha tracked (lookup k previous) k row ts

    abbrev gone_at : Option (Version K) → Changes K
    gone_at none = nothing
    gone_at (some v) = elim (lookup k current) [
      | some _ ↦ nothing
      | none ↦ now_gone sha tracked k v ts
    ]

    plan_current-at :
        (d : Dict K (Row K))
        → IsDict d
        → RowsKeyed d
        → at_key k (plan_current sha tracked previous d ts) ≡ true_at (lookup k d)
    unfolding plan_current lookup contains
    plan_current-at [] h w = refl
    plan_current-at ((j, row) ∷ d) h w =
        let here = now_true sha tracked (lookup j previous) j row ts in
        let there = plan_current sha tracked previous d ts in
        let at_here = now_true-at k j (lookup j previous) row ts w.0 in
        elim (Bool-cases (j =? k)) [
          | inl same ↦
              let jk = (e.beq_iff j k).0 same in
              let absent : lookup k d ≡ none = ap (λ (x : K). lookup x d) (sym jk) ∙ h.0 in
              both-right k here there (plan_current-at d h.1 w.1 ∙ ap true_at absent)
              ∙ at_here
              ∙ rw same (ap (λ (x : K). now_true sha tracked (lookup x previous) k row ts) jk)
          | inr other ↦
              both-left k here there (at_here ∙ rw other refl)
              ∙ plan_current-at d h.1 w.1
              ∙ rw other refl
        ]

    gone_here : K → Version K → Changes K
    gone_here j v = elim (lookup j current) [
      | some _ ↦ nothing
      | none ↦ now_gone sha tracked j v ts
    ]

    gone_here-at :
        (j : K) (v : Version K)
        → v.row.key ≡ j
        → at_key k (gone_here j v) ≡ (if j =? k then gone_at (some v) else nothing)
    unfolding gone_here contains
    gone_here-at j v h = elim (Bool-cases (j =? k)) [
      | inl same ↦ ground (arith, now_gone-at k j v ts h, e.beq_iff j k)
      | inr other ↦ ground (arith, now_gone-at k j v ts h)
    ]

    plan_gone-at :
        (d : Dict K (Version K))
        → IsDict d
        → VersionsKeyed d
        → at_key k (plan_gone sha tracked current d ts) ≡ gone_at (lookup k d)
    unfolding plan_gone gone_here lookup contains
    plan_gone-at [] h w = refl
    plan_gone-at ((j, v) ∷ d) h w =
        let here = gone_here j v in
        let there = plan_gone sha tracked current d ts in
        let at_here = gone_here-at j v w.0 in
        elim (Bool-cases (j =? k)) [
          | inl same ↦
              let jk = (e.beq_iff j k).0 same in
              let absent : lookup k d ≡ none = ap (λ (x : K). lookup x d) (sym jk) ∙ h.0 in
              both-right k here there (plan_gone-at d h.1 w.1 ∙ ap gone_at absent)
              ∙ at_here
              ∙ rw same refl
          | inr other ↦
              both-left k here there (at_here ∙ rw other refl)
              ∙ plan_gone-at d h.1 w.1
              ∙ rw other refl
        ]

    only_gone :
        (old : Option (Version K))
        → lookup k current ≡ none
        → gone_at old ≡ change_at k old (lookup k current) ts
    only_gone none h = rw h refl
    only_gone (some v) h = ground (arith, h)

    not_gone :
        (row : Row K) (old : Option (Version K))
        → lookup k current ≡ some row
        → gone_at old ≡ nothing
    not_gone row none h = refl
    not_gone row (some v) h = ground (arith, h)

    only_true :
        (row : Row K)
        → lookup k current ≡ some row
        → true_at (lookup k current) ≡ change_at k (lookup k previous) (lookup k current) ts
    only_true row h = ground (arith, h)

    -- A plan does to each key what its open version and its current row call for, and nothing else.
    pub plan-at :
        IsDict previous
        → VersionsKeyed previous
        → IsDict current
        → RowsKeyed current
        → at_key k (plan sha tracked previous current ts)
          ≡ change_at k (lookup k previous) (lookup k current) ts
    unfolding plan
    plan-at hp wp hc wc =
        let trues = plan_current sha tracked previous current ts in
        let gones = plan_gone sha tracked current previous ts in
        elim (Option-cases (lookup k current)) [
          | inl out ↦
              both-left k trues gones (plan_current-at current hc wc ∙ ap true_at out)
              ∙ plan_gone-at previous hp wp
              ∙ only_gone (lookup k previous) out
          | inr (row, there) ↦
              both-right k trues gones
                (plan_gone-at previous hp wp ∙ not_gone row (lookup k previous) there)
              ∙ plan_current-at current hc wc
              ∙ only_true row there
        ]
