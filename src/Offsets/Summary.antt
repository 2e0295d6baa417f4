-- ===== src/Offsets/Summary.antt =====
-- docker/lake/offsets.py: `latest_summary`, the newest snapshot summary that a job wrote.
use k2_market_data_platform.Base.{
  ℕ, ◌<◌, String, ◌≡◌, ◌∙◌, ap, refl, Bool, true, false, Option, none, some, List, [], ◌∷◌, ◌++◌,
  All, Option-cases, arith, if◌then◌else◌, ltb,
}
use k2_market_data_platform.Base.Eq.{◌=?◌, string_eq}
use k2_market_data_platform.Base.Dict.{Dict, lookup}

abbrev pub Properties : Type 0
Properties = Dict String String

-- `committed_at`, here a number of ticks, and the summary, which can be None
pub record Snapshot : Type 0 where
  pub committed_at : ℕ
  pub summary : Option Properties

abbrev pub job_key : String
job_key = "k2.job"

abbrev pub is_empty : Properties → Bool
is_empty [] = true
is_empty (x ∷ s) = false

-- `s and s.get(JOB) == job`: the summary, if the job wrote it
unfoldable pub written_by : String → Option Properties → Option Properties
written_by job none = none
written_by job (some s) = elim (lookup job_key s) [
  | none ↦ none
  | some j ↦ if is_empty s then none else if j =? job then some s else none
]

unfoldable pub matching : String → List Snapshot → List (ℕ × Properties)
matching job [] = []
matching job (x ∷ snapshots) =
    let rest = matching job snapshots in
    elim (written_by job x.summary) [ none ↦ rest | some s ↦ (x.committed_at, s) ∷ rest ]

-- Python's `max`: the first of the greatest
unfoldable pub newest : ℕ × Properties → List (ℕ × Properties) → ℕ × Properties
newest best [] = best
newest best (x ∷ xs) = newest (if ltb best.0 x.0 then x else best) xs

unfoldable pub latest_summary : List Snapshot → String → Option Properties
latest_summary snapshots job = elim (matching job snapshots) [
  | [] ↦ none
  | x ∷ xs ↦ some (newest x xs).1
]

matching-append :
    (job : String) (xs ys : List Snapshot)
    → matching job (xs ++ ys) ≡ matching job xs ++ matching job ys
unfolding matching
matching-append job [] ys = refl
matching-append job (x ∷ xs) ys = ground (arith, matching-append job xs ys)

matching-skips :
    (job : String) (ys : List Snapshot)
    → All (λ (y : Snapshot). written_by job y.summary ≡ none) ys
    → matching job ys ≡ []
unfolding matching
matching-skips job [] h = refl
matching-skips job (y ∷ ys) h = ground (arith, h.0, matching-skips job ys h.1)

matching-earlier :
    (job : String) (now : ℕ) (xs : List Snapshot)
    → All (λ (x : Snapshot). x.committed_at < now) xs
    → All (λ (e : ℕ × Properties). e.0 < now) (matching job xs)
unfolding matching
matching-earlier job now [] h = tt
matching-earlier job now (x ∷ xs) h =
    ground (arith, Option-cases (written_by job x.summary), matching-earlier job now xs h.1)

newest-last :
    (best last : ℕ × Properties) (xs : List (ℕ × Properties))
    → best.0 < last.0
    → All (λ (e : ℕ × Properties). e.0 < last.0) xs
    → newest best (xs ++ last ∷ []) ≡ last
unfolding newest
newest-last best last [] h k = ground arith
newest-last best last (x ∷ xs) h k =
    newest-last (if ltb best.0 x.0 then x else best) last xs (ground arith) k.1

newest_of : List (ℕ × Properties) → Option Properties
newest_of l = elim l [ [] ↦ none | x ∷ xs ↦ some (newest x xs).1 ]

newest_of-last :
    (last : ℕ × Properties) (xs : List (ℕ × Properties))
    → All (λ (e : ℕ × Properties). e.0 < last.0) xs
    → newest_of (xs ++ last ∷ []) ≡ some last.1
unfolding newest_of newest
newest_of-last last [] h = refl
newest_of-last last (x ∷ xs) h =
    ap (λ (e : ℕ × Properties). some e.1) (newest-last x last xs h.0 h.1)

-- The summary that a run resumes from is the one of the job's last commit: whatever the job and
-- others committed before it, at earlier times, and whatever snapshots follow that the job did not
-- write, at any time.
pub latest_summary-resumes :
    (before after : List Snapshot) (x : Snapshot) (job : String) (s : Properties)
    → All (λ (y : Snapshot). y.committed_at < x.committed_at) before
    → All (λ (y : Snapshot). written_by job y.summary ≡ none) after
    → written_by job x.summary ≡ some s
    → latest_summary (before ++ x ∷ after) job ≡ some s
unfolding latest_summary newest_of
latest_summary-resumes before after x job s early others own =
    ap newest_of (
      matching-append job before (x ∷ after)
      ∙ ap (λ (l : List (ℕ × Properties)). matching job before ++ l)
          (matching_own job x s after own (matching-skips job after others)))
    ∙ newest_of-last (x.committed_at, s) (matching job before)
        (matching-earlier job x.committed_at before early)
  where
    matching_own :
        (job : String) (x : Snapshot) (s : Properties) (after : List Snapshot)
        → written_by job x.summary ≡ some s
        → matching job after ≡ []
        → matching job (x ∷ after) ≡ (x.committed_at, s) ∷ []
    matching_own job x s after own none_after = unfold matching in ground (arith, own, none_after)

-- There is a summary only if the job wrote one.
pub latest_summary-none :
    (snapshots : List Snapshot) (job : String)
    → All (λ (y : Snapshot). written_by job y.summary ≡ none) snapshots
    → latest_summary snapshots job ≡ none
unfolding latest_summary
latest_summary-none snapshots job h = ground (arith, matching-skips job snapshots h)
