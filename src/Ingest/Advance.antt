-- ===== src/Ingest/Advance.antt =====
-- One run seen from one partition: what a commit says of the range that it appended.

use k2_market_data_platform.Base.{
  ℕ, String, ◌≡◌, ◌∙◌, refl, ap, subst, ◌⊎◌, inl, inr, Option-cases, sym, Option, none, some, List,
  [], ◌∷◌, arith, prefer,
}
use k2_market_data_platform.Base.Int.{ℤ, pos, ◌≤ℤ◌}
use k2_market_data_platform.Base.Eq.{string_eq, nat_eq}
use k2_market_data_platform.Offsets.{Offsets, offset_at, IsOffsets}
use k2_market_data_platform.Offsets.Starting.{
  next_starting_offsets, merge_committed, merge_committed-carries, merge_committed-IsOffsets,
}
use k2_market_data_platform.Offsets.Bounded.{Plan, bounded_offsets}
use k2_market_data_platform.Offsets.Bounded.Lookup.{starts-IsOffsets, ends-IsOffsets}
use k2_market_data_platform.Offsets.Evicted.{Loss, evicted, skip_evicted}
use k2_market_data_platform.Ingest.{
  Run, Outcome, committed, partition_counts, first_plan, accept_loss, settle, append, stage_raw,
}
use k2_market_data_platform.Ingest.Planned.{
  IsBroker, IsOffset, Resumes, Planned, IsPlanned, settle_cases, first_plan-IsPlanned,
  settle-IsPlanned,
}

module _ (r : Run) (t : String) (p : ℕ) where
  -- what a commit leaves at the partition
  abbrev pub Advanced : Option ℤ → Option ℤ → Option ℤ → Option ℤ → Type 0
  Advanced old none none next = next ≡ old
  Advanced old (some s) (some e) next =
      Resumes r t p old s × (pos 0 ≤ℤ s) × (s ≤ℤ e) × (next ≡ some e)
  Advanced old none (some e) next = ⊥
  Advanced old (some s) none next = ⊥

  advanced : (old s e : Option ℤ) → Planned r t p old s e → Advanced old s e (prefer e old)
  advanced old none none h = refl
  advanced old (some s) (some e) h = (h.0, h.1, h.2, refl)
  advanced old none (some e) h = h
  advanced old (some s) none h = h

  append_plan :
      (previous next : Offsets) (settled plan : Plan)
      → append r previous settled ≡ committed plan next
      → (settled ≡ plan) × (merge_committed previous settled.ends ≡ next)
  unfolding append
  append_plan previous next settled plan h = ground arith

  settle-not_committed :
      (first plan : Plan) (losses : List Loss) (next : Offsets)
      → settle r first losses ≡ inl (committed plan next)
      → ⊥
  unfolding settle accept_loss
  settle-not_committed first plan [] next e = cc
  settle-not_committed first plan (l ∷ losses) next e =
      elim (Option-cases (skip_evicted first.starts (l ∷ losses))) [
        | inl missing ↦ ground (arith, missing)
        | inr (repaired, found) ↦ ground (arith, found)
      ]

  settled_plan :
      (previous next : Offsets) (first plan : Plan) (losses : List Loss) (s : Outcome ⊎ Plan)
      → settle r first losses ≡ s
      → elim s as (λ _. Outcome) [ inl stopped ↦ stopped | inr settled ↦ append r previous settled ]
        ≡ committed plan next
      → (settle r first losses ≡ inr plan) × (merge_committed previous plan.ends ≡ next)
  settled_plan previous next first plan losses (inl stopped) e h =
      absurd (settle-not_committed first plan losses next (e ∙ ap inl h))
  settled_plan previous next first plan losses (inr settled) e h =
      let (same, merged) = append_plan previous next settled plan h in
      (e ∙ ap inr same, ap (λ (x : Plan). merge_committed previous x.ends) (sym same) ∙ merged)

  stage_raw_plan :
      (previous next : Offsets) (plan : Plan)
      → stage_raw r previous ≡ committed plan next
      → (settle r (first_plan r previous) (evicted (first_plan r previous).starts r.broker.earliest)
          ≡ inr plan)
        × (merge_committed previous plan.ends ≡ next)
  unfolding stage_raw
  stage_raw_plan previous next plan h =
      settled_plan previous next (first_plan r previous) plan
        (evicted (first_plan r previous).starts r.broker.earliest)
        (settle r (first_plan r previous)
          (evicted (first_plan r previous).starts r.broker.earliest))
        refl h

  settle-ends :
      (d : Offsets) (plan : Plan) (losses : List Loss)
      → settle r (bounded_offsets r.broker r.max_per_partition d) losses ≡ inr plan
      → IsOffsets plan.ends
  settle-ends d plan losses e =
      elim (settle_cases r (bounded_offsets r.broker r.max_per_partition d) losses plan e) [
        | inl same ↦
            subst (λ (x : Plan). IsOffsets x.ends) same
              (ends-IsOffsets r.broker r.max_per_partition d)
        | inr (accepted, repaired, skipped, planned) ↦
            subst (λ (x : Plan). IsOffsets x.ends) planned
              (ends-IsOffsets r.broker r.max_per_partition repaired)
      ]

  -- A commit either has no range for the partition and carries its offset forward unchanged, or it
  -- appended the range from where the last commit ended, and now says where this range ends. It
  -- starts elsewhere only at the broker's log start: if nothing was committed, or if the committed
  -- offset is evicted and `--accept-data-loss` was given.
  pub stage_raw-Advanced :
      (previous next : Offsets) (plan : Plan)
      → IsBroker r.broker
      → IsOffsets previous
      → IsOffset (offset_at previous t p)
      → stage_raw r previous ≡ committed plan next
      → Advanced
          (offset_at previous t p)
          (offset_at plan.starts t p)
          (offset_at plan.ends t p)
          (offset_at next t p)
  unfolding first_plan
  stage_raw-Advanced previous next plan b h o e =
      let (settled, merged) = stage_raw_plan previous next plan e in
      let starting = next_starting_offsets previous (partition_counts r.broker.earliest) in
      let first = bounded_offsets r.broker r.max_per_partition starting in
      let planned : IsPlanned r t p (offset_at previous t p) plan =
        settle-IsPlanned r t p (offset_at previous t p) first plan
          (starts-IsOffsets r.broker r.max_per_partition starting)
          (first_plan-IsPlanned r t p previous b h o) settled in
      subst
        (Advanced (offset_at previous t p) (offset_at plan.starts t p) (offset_at plan.ends t p))
        (sym (
            merge_committed-carries previous plan.ends t p
              (settle-ends starting plan (evicted first.starts r.broker.earliest) settled))
          ∙ ap (λ (d : Offsets). offset_at d t p) merged)
        (advanced (offset_at previous t p) (offset_at plan.starts t p) (offset_at plan.ends t p)
          planned)

pub stage_raw-IsOffsets :
    (r : Run) (previous next : Offsets) (plan : Plan)
    → IsOffsets previous
    → stage_raw r previous ≡ committed plan next
    → IsOffsets next
stage_raw-IsOffsets r previous next plan h e =
    subst IsOffsets (stage_raw_plan r "" 0 previous next plan e).1
      (merge_committed-IsOffsets previous plan.ends h)
