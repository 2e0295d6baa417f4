-- ===== src/Scd2/Merge.antt =====
-- One cycle's effect on the versions of one natural key.
use mathlib.Core.Path.{ap₂}
use k2_market_data_platform.Base.{
  ℕ, String, ◌≡◌, ◌∙◌, refl, sym, ap, Bool, true, false, if_intro, Option, none, List, [], ◌∷◌,
  ◌++◌, map, arith, if◌then◌else◌,
}
use k2_market_data_platform.Base.Eq.{Eq, beq_refl}
use k2_market_data_platform.Base.Dict.{Dict, IsDict, lookup, insert, lookup-insert, insert-IsDict}
use k2_market_data_platform.Scd2.{
  Row, Version, Changes, open_versions, contains, close_version, merge_close, changes_of, merge_dim,
}
use k2_market_data_platform.Scd2.History.{
  RowsKeyed, VersionsKeyed, last_open, close_open, of_key, of_key-append, at_key, change_at,
  plan-at,
}

module _ {K : Type 0} ⦃e : Eq K⦄ (sha : String → String) (tracked : List String) where
  lookup-open_versions :
      (k : K) (out : Dict K (Version K)) (table : List (Version K))
      → lookup k (open_versions out table) ≡ last_open (lookup k out) (of_key k table)
  unfolding open_versions
  lookup-open_versions k out [] = refl
  lookup-open_versions k out (v ∷ table) = ground (
    arith,
    lookup-open_versions k (if v.is_current then insert v.row.key v out else out) table,
    lookup-insert v.row.key k v out,
  )

  lookup-open_versions_new :
      (k : K) (table : List (Version K))
      → lookup k (open_versions [] table) ≡ last_open none (of_key k table)
  unfolding lookup
  lookup-open_versions_new k table = lookup-open_versions k [] table

  contains_self : (k : K) (b : Bool) → contains k (if b then k ∷ [] else []) ≡ b
  unfolding contains
  contains_self k true = rw (beq_refl k) refl
  contains_self k false = refl

  open_versions-IsDict :
      (out : Dict K (Version K)) (table : List (Version K))
      → IsDict out
      → IsDict (open_versions out table)
  unfolding open_versions
  open_versions-IsDict out [] h = h
  open_versions-IsDict out (v ∷ table) h =
      open_versions-IsDict (if v.is_current then insert v.row.key v out else out) table (
        if_intro (λ (d : Dict K (Version K)). IsDict d) v.is_current (insert v.row.key v out) out
          (insert-IsDict v.row.key v out h) h)

  insert-VersionsKeyed :
      (v : Version K) (d : Dict K (Version K))
      → VersionsKeyed d
      → VersionsKeyed (insert v.row.key v d)
  unfolding insert
  insert-VersionsKeyed v [] w = (refl, tt)
  insert-VersionsKeyed v ((j, u) ∷ d) w =
      ground (arith, insert-VersionsKeyed v d w.1, e.beq_iff j v.row.key)

  open_versions-VersionsKeyed :
      (out : Dict K (Version K)) (table : List (Version K))
      → VersionsKeyed out
      → VersionsKeyed (open_versions out table)
  unfolding open_versions
  open_versions-VersionsKeyed out [] h = h
  open_versions-VersionsKeyed out (v ∷ table) h =
      open_versions-VersionsKeyed (if v.is_current then insert v.row.key v out else out) table (
        if_intro (λ (d : Dict K (Version K)). VersionsKeyed d) v.is_current (insert v.row.key v out)
          out (insert-VersionsKeyed v out h) h)

  -- the history of a key after a cycle
  abbrev pub step_history : K → List (Version K) → Option (Row K) → ℕ → List (Version K)
  step_history k h current ts =
      let c = change_at sha tracked k (last_open none h) current ts in
      map (close_open (contains k c.close) ts) h ++ c.fresh

  pub of_key-merge_close :
      (k : K) (close : List K) (ts : ℕ) (table : List (Version K))
      → of_key k (merge_close close ts table)
        ≡ map (close_open (contains k close) ts) (of_key k table)
  unfolding merge_close close_version
  of_key-merge_close k close ts [] = refl
  of_key-merge_close k close ts (v ∷ table) =
      ground (arith, of_key-merge_close k close ts table, e.beq_iff v.row.key k)

  -- What a cycle decides for a key follows from the key's own versions and row.
  pub changes_of-at :
      (k : K) (table : List (Version K)) (current : Dict K (Row K)) (ts : ℕ)
      → IsDict current
      → RowsKeyed current
      → at_key k (changes_of sha tracked table current ts)
        ≡ change_at sha tracked k (last_open none (of_key k table)) (lookup k current) ts
  unfolding changes_of
  changes_of-at k table current ts h w =
      plan-at sha tracked (open_versions [] table) current ts k (open_versions-IsDict [] table tt)
        (open_versions-VersionsKeyed [] table tt) h w
      ∙ ap (λ (old : Option (Version K)). change_at sha tracked k old (lookup k current) ts)
          (lookup-open_versions_new k table)

  -- A cycle changes the versions of a key by that key's open version and current row alone.
  pub of_key-merge_dim :
      (k : K) (table : List (Version K)) (current : Dict K (Row K)) (ts : ℕ)
      → IsDict current
      → RowsKeyed current
      → of_key k (merge_dim sha tracked table current ts)
        ≡ step_history k (of_key k table) (lookup k current) ts
  unfolding merge_dim
  of_key-merge_dim k table current ts h w =
      let c = changes_of sha tracked table current ts in
      let at_k = changes_of-at k table current ts h w in
      of_key-append k (merge_close c.close ts table) c.fresh
      ∙ ap (λ (x : List (Version K)). x ++ of_key k c.fresh) (of_key-merge_close k c.close ts table)
      ∙ ap₂
          (λ (b : Bool) (fresh : List (Version K)). map (close_open b ts) (of_key k table) ++ fresh)
          (sym (contains_self k (contains k c.close))
            ∙ ap (λ (x : Changes K). contains k x.close) at_k)
          (ap (λ (x : Changes K). x.fresh) at_k)
