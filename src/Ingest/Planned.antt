-- ===== src/Ingest/Planned.antt =====
-- One run seen from one partition: the range that it plans.
use mathlib.Core.Option
use k2_market_data_platform.Base.{
  ℕ, String, ◌≡◌, ◌∙◌, refl, ap, subst, ◌⊎◌, inl, inr, true, Bool-cases, Option-cases, sym, Option,
  none, some, List, [], ◌∷◌, length, arith, ltb,
}
use k2_market_data_platform.Base.Int.{ℤ, pos, ◌≤ℤ◌, ◌<ℤ◌, max_ℤ}
use k2_market_data_platform.Base.Eq.{string_eq, nat_eq}
use k2_market_data_platform.Base.Dict.{IsDict, lookup}
use k2_market_data_platform.Offsets.{Offsets, offset_at, IsOffsets}
use k2_market_data_platform.Offsets.Starting.{
  next_starting_offsets, next_spec, start_spec, next_starting_offsets-resumes,
  next_starting_offsets-IsOffsets,
}
use k2_market_data_platform.Offsets.Bounded.{
  Broker, Plan, bounded_offsets, start_of, stop_of, resolve_start, log_start_of, end_of_log_of,
  instant_of,
}
use k2_market_data_platform.Offsets.Bounded.Stop.{start-le-stop_at}
use k2_market_data_platform.Offsets.Bounded.Lookup.{starts-bounded_offsets, ends-bounded_offsets}
use k2_market_data_platform.Offsets.Evicted.{Loss, evicted, skip_evicted}
use k2_market_data_platform.Offsets.Evicted.Repair.{skip_evicted-evicted, skip_evicted-IsOffsets}
use k2_market_data_platform.Ingest.{Run, partition_counts, first_plan, accept_loss, settle}

-- What Kafka says of a log: one entry for each partition, and no log starts below 0.
pub record IsBroker (b : Broker) : Type 0 where
  pub keys : IsOffsets b.earliest
  pub nonneg : (t : String) (p : ℕ) → pos 0 ≤ℤ log_start_of b t p

lookup-partition_counts :
    (t : String) (earliest : Offsets)
    → lookup t (partition_counts earliest) ≡ Option.map length (lookup t earliest)
unfolding partition_counts lookup
lookup-partition_counts t [] = refl
lookup-partition_counts t ((u, ps) ∷ d) = ground (arith, lookup-partition_counts t d)

partition_counts-IsDict :
    (earliest : Offsets) → IsDict earliest → IsDict (partition_counts earliest)
unfolding partition_counts lookup
partition_counts-IsDict [] h = tt
partition_counts-IsDict ((t, ps) ∷ d) h =
    (ground (arith, lookup-partition_counts t d, h.0), partition_counts-IsDict d h.1)

-- A committed offset is no sentinel.
abbrev pub IsOffset : Option ℤ → Type 0
IsOffset none = Unit
IsOffset (some c) = pos 0 ≤ℤ c

pub settle_cases :
    (r : Run) (first : Plan) (losses : List Loss) (plan : Plan)
    → settle r first losses ≡ inr plan
    → (first ≡ plan)
      ⊎ ((r.accept_data_loss ≡ true)
          × (repaired : Offsets) × (skip_evicted first.starts losses ≡ some repaired)
          × (bounded_offsets r.broker r.max_per_partition repaired ≡ plan))
unfolding settle accept_loss
settle_cases r first [] plan e = inl (ground arith)
settle_cases r first (l ∷ losses) plan e =
    elim (Option-cases (skip_evicted first.starts (l ∷ losses))) [
      | inl missing ↦ ground (arith, missing)
      | inr (repaired, found) ↦ inr (ground arith, repaired, found, ground (arith, found))
    ]

module _ (r : Run) (t : String) (p : ℕ) where
  -- Where a run starts, given what was committed: at the committed offset, or at the log's start if
  -- nothing was, or if what was is evicted and the loss accepted.
  abbrev pub Resumes : Option ℤ → ℤ → Type 0
  Resumes none s = s ≡ log_start_of r.broker t p
  Resumes (some c) s =
      (s ≡ c)
      ⊎ ((r.accept_data_loss ≡ true)
          × (c <ℤ log_start_of r.broker t p)
          × (s ≡ log_start_of r.broker t p))

  -- The range that a plan has for the partition, if it has one.
  abbrev pub Planned : Option ℤ → Option ℤ → Option ℤ → Type 0
  Planned old none none = Unit
  Planned old (some s) (some e) = Resumes old s × (pos 0 ≤ℤ s) × (s ≤ℤ e)
  Planned old none (some e) = ⊥
  Planned old (some s) none = ⊥

  abbrev pub IsPlanned : Option ℤ → Plan → Type 0
  IsPlanned old plan = Planned old (offset_at plan.starts t p) (offset_at plan.ends t p)

  -- a plan for offsets that are resolved, or EARLIEST where nothing is committed
  abbrev Asked : Option ℤ → Option ℤ → Type 0
  Asked old none = Unit
  Asked old (some o) =
      Resumes old (resolve_start (log_start_of r.broker t p) (end_of_log_of r.broker t p) o)
      × (pos 0 ≤ℤ resolve_start (log_start_of r.broker t p) (end_of_log_of r.broker t p) o)

  Asked-range :
      (old o : Option ℤ)
      → Asked old o
      → Planned old
          (Option.map (start_of r.broker r.max_per_partition t p) o)
          (Option.map (stop_of r.broker r.max_per_partition t p) o)
  unfolding start_of stop_of
  Asked-range old none a = tt
  Asked-range old (some o) a = (
    a.0,
    a.1,
    start-le-stop_at (end_of_log_of r.broker t p) (instant_of r.broker t p) r.max_per_partition
        (resolve_start (log_start_of r.broker t p) (end_of_log_of r.broker t p) o),
  )

  bounded_offsets-IsPlanned :
      (d : Offsets) (old : Option ℤ)
      → IsOffsets d
      → Asked old (offset_at d t p)
      → IsPlanned old (bounded_offsets r.broker r.max_per_partition d)
  bounded_offsets-IsPlanned d old h a =
      rw
        (
          starts-bounded_offsets r.broker r.max_per_partition d t p h,
          ends-bounded_offsets r.broker r.max_per_partition d t p h,
        )
        (Asked-range old (offset_at d t p) a)

  resolve_start_offset : (first log_end o : ℤ) → pos 0 ≤ℤ o → resolve_start first log_end o ≡ o
  unfolding resolve_start
  resolve_start_offset first log_end o h = ground arith

  start_spec-Asked :
      (old : Option ℤ) (n : ℕ) → IsBroker r.broker → IsOffset old → Asked old (start_spec old n p)
  unfolding resolve_start
  start_spec-Asked none n b o = elim (Bool-cases (ltb p n)) [
    | inl e ↦ rw e (refl, b.nonneg t p)
    | inr e ↦ rw e tt
  ]
  start_spec-Asked (some c) n b o =
      let e = resolve_start_offset (log_start_of r.broker t p) (end_of_log_of r.broker t p) c o in
      (inl e, rw e o)

  next_spec-Asked :
      (previous : Offsets) (count : Option ℕ)
      → IsBroker r.broker
      → IsOffset (offset_at previous t p)
      → Asked (offset_at previous t p) (next_spec previous count t p)
  next_spec-Asked previous none b o = tt
  next_spec-Asked previous (some n) b o = start_spec-Asked (offset_at previous t p) n b o

  pub first_plan-IsPlanned :
      (previous : Offsets)
      → IsBroker r.broker
      → IsOffsets previous
      → IsOffset (offset_at previous t p)
      → IsPlanned (offset_at previous t p) (first_plan r previous)
  unfolding first_plan
  first_plan-IsPlanned previous b h o =
      let counts = partition_counts r.broker.earliest in
      bounded_offsets-IsPlanned (next_starting_offsets previous counts) (offset_at previous t p)
        (next_starting_offsets-IsOffsets previous counts)
        (rw
          (next_starting_offsets-resumes previous counts t p h
            (partition_counts-IsDict r.broker.earliest b.keys.0))
          (next_spec-Asked previous (lookup t counts) b o))

  -- the offsets that the repair moves past the loss
  repaired-Asked :
      (old s e : Option ℤ)
      → r.accept_data_loss ≡ true
      → Planned old s e
      → Asked old (Option.map (λ x. max_ℤ x (log_start_of r.broker t p)) s)
  unfolding max_ℤ
  repaired-Asked old none e a h = tt
  repaired-Asked old (some s) none a h = elim h [ ]
  repaired-Asked none (some s) (some e) a h = ground (
    arith,
    resolve_start_offset (log_start_of r.broker t p) (end_of_log_of r.broker t p)
        (max_ℤ s (log_start_of r.broker t p)),
  )
  repaired-Asked (some c) (some s) (some e) a h = ground (
    arith,
    resolve_start_offset (log_start_of r.broker t p) (end_of_log_of r.broker t p)
        (max_ℤ s (log_start_of r.broker t p)),
  )

  pub settle-IsPlanned :
      (old : Option ℤ) (first plan : Plan)
      → IsOffsets first.starts
      → IsPlanned old first
      → settle r first (evicted first.starts r.broker.earliest) ≡ inr plan
      → IsPlanned old plan
  settle-IsPlanned old first plan h a e =
      elim (settle_cases r first (evicted first.starts r.broker.earliest) plan e) [
        | inl same ↦ subst (λ x. IsPlanned old x) same a
        | inr (accepted, repaired, skipped, planned) ↦
            let (found, ran, at) = skip_evicted-evicted first.starts r.broker.earliest h in
            let same : found ≡ repaired = ground (arith, ran, skipped) in
            subst (λ x. IsPlanned old x) planned
              (bounded_offsets-IsPlanned repaired old
                (skip_evicted-IsOffsets (evicted first.starts r.broker.earliest) first.starts h
                  skipped)
                (subst (Asked old) (sym (at t p) ∙ ap (λ (d : Offsets). offset_at d t p) same) (
                  unfold log_start_of in
                  repaired-Asked old (offset_at first.starts t p) (offset_at first.ends t p)
                    accepted a)))
      ]
