-- ===== src/Ingest/Once.antt =====
-- The exactly-once contract: what a history of runs has archived of one partition.
use native.Mathlib.Nat.{zero-add}
use k2_market_data_platform.Base.{
  ℕ, ◌+◌, ◌≤◌, String, ◌≡◌, refl, sym, subst, false, ◌&&◌, Option, none, some, List, [], ◌∷◌, All,
  arith, if◌then◌else◌,
}
use k2_market_data_platform.Base.Int.{ℤ, ◌≤ℤ◌, leb_ℤ, ltb_ℤ}
use k2_market_data_platform.Base.Dict.{lookup}
use k2_market_data_platform.Offsets.{Offsets, offset_at, IsOffsets}
use k2_market_data_platform.Offsets.Bounded.{Plan}
use k2_market_data_platform.Ingest.{
  Run, Outcome, committed, stage_raw, Lake, empty_lake, record_outcome, ingest, ingest_all,
}
use k2_market_data_platform.Ingest.Advance.{Advanced, stage_raw-Advanced, stage_raw-IsOffsets}
use k2_market_data_platform.Ingest.Planned.{IsBroker, IsOffset}

-- is the offset in the half-open range?
abbrev pub in_range : Option ℤ → Option ℤ → ℤ → ℕ
in_range (some s) (some e) o = if leb_ℤ s o && ltb_ℤ o e then 1 else 0
in_range (some s) none o = 0
in_range none e o = 0

module _ (t : String) (p : ℕ) where
  -- how often the archive holds the record at an offset of the partition
  abbrev pub copies : List Plan → ℤ → ℕ
  copies [] o = 0
  copies (plan ∷ archive) o =
      in_range (offset_at plan.starts t p) (offset_at plan.ends t p) o + copies archive o

  -- nothing at or past the committed offset is archived
  abbrev Untouched : Option ℤ → (ℤ → ℕ) → Type 0
  Untouched none held = (o : ℤ) → held o ≡ 0
  Untouched (some c) held = (o : ℤ) → c ≤ℤ o → held o ≡ 0

  record IsOnce (lake : Lake) : Type 0 where
    keys : IsOffsets lake.offsets
    offset : IsOffset (offset_at lake.offsets t p)
    untouched : Untouched (offset_at lake.offsets t p) (copies lake.archive)
    once : (o : ℤ) → copies lake.archive o ≤ 1

  module _ (r : Run) (archive : List Plan) where
    next-IsOffset :
        (old s e next : Option ℤ) → Advanced r t p old s e next → IsOffset old → IsOffset next
    next-IsOffset old none none next a h = subst IsOffset (sym a) h
    next-IsOffset old (some s) (some e) next a h =
        subst IsOffset (sym a.3) (ground (arith, a.1, a.2))
    next-IsOffset old none (some e) next a h = elim a [ ]
    next-IsOffset old (some s) none next a h = elim a [ ]

    next-once :
        (old s e next : Option ℤ) (o : ℤ)
        → Advanced r t p old s e next
        → Untouched old (copies archive)
        → copies archive o ≤ 1
        → in_range s e o + copies archive o ≤ 1
    next-once old none none next o a u h = ground arith
    next-once none (some s) (some e) next o a u h = ground (arith, u o)
    next-once (some c) (some s) (some e) next o a u h = ground (arith, u o)
    next-once old none (some e) next o a u h = elim a [ ]
    next-once old (some s) none next o a u h = elim a [ ]

    next-Untouched :
        (old s e next : Option ℤ)
        → Advanced r t p old s e next
        → Untouched old (copies archive)
        → Untouched next (λ o. in_range s e o + copies archive o)
    next-Untouched old none none next a u =
        simp zero-add (subst (λ n. Untouched n (copies archive)) (sym a) u)
    next-Untouched none (some s) (some e) next a u =
        subst (λ n. Untouched n (λ o. in_range (some s) (some e) o + copies archive o)) (sym a.3)
          (λ o h. ground (arith, u o, h))
    next-Untouched (some c) (some s) (some e) next a u =
        subst (λ n. Untouched n (λ o. in_range (some s) (some e) o + copies archive o)) (sym a.3)
          (λ o h. ground (arith, u o, h))
    next-Untouched old none (some e) next a u = elim a [ ]
    next-Untouched old (some s) none next a u = elim a [ ]

  commit-IsOnce :
      (r : Run) (lake : Lake) (plan : Plan) (next : Offsets)
      → IsBroker r.broker
      → IsOnce lake
      → stage_raw r lake.offsets ≡ committed plan next
      → IsOnce (record { offsets = next; archive = plan ∷ lake.archive })
  commit-IsOnce r lake plan next b inv e =
      let old = offset_at lake.offsets t p in
      let s = offset_at plan.starts t p in
      let e' = offset_at plan.ends t p in
      let n = offset_at next t p in
      let a = stage_raw-Advanced r t p lake.offsets next plan b inv.keys inv.offset e in
      record {
        keys = stage_raw-IsOffsets r lake.offsets next plan inv.keys e;
        offset = next-IsOffset r lake.archive old s e' n a inv.offset;
        untouched = next-Untouched r lake.archive old s e' n a inv.untouched;
        once = λ o. next-once r lake.archive old s e' n o a inv.untouched (inv.once o);
      }

  outcome-IsOnce :
      (r : Run) (lake : Lake) (out : Outcome)
      → IsBroker r.broker
      → IsOnce lake
      → stage_raw r lake.offsets ≡ out
      → IsOnce (record_outcome lake out)
  unfolding record_outcome
  outcome-IsOnce r lake (committed plan next) b inv e = commit-IsOnce r lake plan next b inv e
  outcome-IsOnce r lake _ b inv e = inv

  ingest_all-IsOnce :
      (lake : Lake) (runs : List Run)
      → All (λ (r : Run). IsBroker r.broker) runs
      → IsOnce lake
      → IsOnce (ingest_all lake runs)
  unfolding ingest_all ingest
  ingest_all-IsOnce lake [] b inv = inv
  ingest_all-IsOnce lake (r ∷ runs) b inv =
      ingest_all-IsOnce (record_outcome lake (stage_raw r lake.offsets)) runs b.1
        (outcome-IsOnce r lake (stage_raw r lake.offsets) b.0 inv refl)

  IsOnce-empty : IsOnce empty_lake
  unfolding lookup
  IsOnce-empty = record {
    keys = (tt, tt);
    offset = tt;
    untouched = λ o. refl;
    once = λ o. omega arith;
  }

  -- Whatever the runs of a new lake meet and however they end, with losses accepted or not, no
  -- record of any partition is archived twice, if the broker reports each partition once and no
  -- log start below 0.
  pub ingest_all-once :
      (runs : List Run) (o : ℤ)
      → All (λ (r : Run). IsBroker r.broker) runs
      → copies (ingest_all empty_lake runs).archive o ≤ 1
  ingest_all-once runs o b = (ingest_all-IsOnce empty_lake runs b IsOnce-empty).once o

  -- what is archived up to a committed offset, if nothing was skipped
  abbrev pub Contiguous : Option ℤ → (ℤ → ℕ) → Type 0
  Contiguous none held = (o : ℤ) → held o ≡ 0
  Contiguous (some c) held =
      (first : ℤ) × (first ≤ℤ c)
      × ((o : ℤ) → held o ≡ (if leb_ℤ first o && ltb_ℤ o c then 1 else 0))

  next-Contiguous :
      (r : Run) (archive : List Plan) (old s e next : Option ℤ)
      → r.accept_data_loss ≡ false
      → Advanced r t p old s e next
      → Contiguous old (copies archive)
      → Contiguous next (λ o. in_range s e o + copies archive o)
  next-Contiguous r archive old none none next f a u =
      simp zero-add (subst (λ n. Contiguous n (copies archive)) (sym a) u)
  next-Contiguous r archive none (some s) (some e) next f a u =
      subst (λ n. Contiguous n (λ o. in_range (some s) (some e) o + copies archive o)) (sym a.3)
        (s, a.2, λ o. ground (arith, u o))
  next-Contiguous r archive (some c) (some s) (some e) next f a u =
      subst (λ n. Contiguous n (λ o. in_range (some s) (some e) o + copies archive o)) (sym a.3)
        (u.0, ground (arith, u.1, a.2), λ o. ground (arith, u.2 o, u.1, a.2))
  next-Contiguous r archive old none (some e) next f a u = elim a [ ]
  next-Contiguous r archive old (some s) none next f a u = elim a [ ]

  record IsGapless (lake : Lake) : Type 0 where
    keys : IsOffsets lake.offsets
    offset : IsOffset (offset_at lake.offsets t p)
    contiguous : Contiguous (offset_at lake.offsets t p) (copies lake.archive)

  outcome-IsGapless :
      (r : Run) (lake : Lake) (out : Outcome)
      → IsBroker r.broker
      → r.accept_data_loss ≡ false
      → IsGapless lake
      → stage_raw r lake.offsets ≡ out
      → IsGapless (record_outcome lake out)
  unfolding record_outcome
  outcome-IsGapless r lake (committed plan next) b f inv e =
      let old = offset_at lake.offsets t p in
      let s = offset_at plan.starts t p in
      let e' = offset_at plan.ends t p in
      let n = offset_at next t p in
      let a = stage_raw-Advanced r t p lake.offsets next plan b inv.keys inv.offset e in
      record {
        keys = stage_raw-IsOffsets r lake.offsets next plan inv.keys e;
        offset = next-IsOffset r lake.archive old s e' n a inv.offset;
        contiguous = next-Contiguous r lake.archive old s e' n f a inv.contiguous;
      }
  outcome-IsGapless r lake _ b f inv e = inv

  ingest_all-IsGapless :
      (lake : Lake) (runs : List Run)
      → All (λ (r : Run). IsBroker r.broker × (r.accept_data_loss ≡ false)) runs
      → IsGapless lake
      → IsGapless (ingest_all lake runs)
  unfolding ingest_all ingest
  ingest_all-IsGapless lake [] b inv = inv
  ingest_all-IsGapless lake (r ∷ runs) b inv =
      ingest_all-IsGapless (record_outcome lake (stage_raw r lake.offsets)) runs b.1
        (outcome-IsGapless r lake (stage_raw r lake.offsets) b.0.0 b.0.1 inv refl)

  IsGapless-empty : IsGapless empty_lake
  unfolding lookup
  IsGapless-empty = record { keys = (tt, tt); offset = tt; contiguous = λ o. refl }

  -- If no run accepts a data loss, then whatever the runs of a new lake meet and however they end,
  -- the archive of each partition is one unbroken run of offsets that ends at the committed offset,
  -- each archived exactly once, and nothing else; a partition with no committed offset has nothing.
  pub ingest_all-Contiguous :
      (runs : List Run)
      → All (λ (r : Run). IsBroker r.broker × (r.accept_data_loss ≡ false)) runs
      → Contiguous
          (offset_at (ingest_all empty_lake runs).offsets t p)
          (copies (ingest_all empty_lake runs).archive)
  ingest_all-Contiguous runs b = (ingest_all-IsGapless empty_lake runs b IsGapless-empty).contiguous
