-- ===== src/Offsets/Evicted/Repair.antt =====
-- What the repair does to each partition, and that no evicted partition is missed.
use text.Mathlib.TextEquality.{eq_iff}
use mathlib.Core.Option
use k2_market_data_platform.Base.{
  ℕ, String, ◌≡◌, ◌∙◌, refl, inl, inr, ◌&&◌, Bool-cases, Option-cases, ap, subst, Option, none,
  some, List, [], ◌∷◌, ◌++◌, arith, get_or, prefer, if◌then◌else◌, ◌==◌,
}
use k2_market_data_platform.Base.Int.{ℤ, ◌≤ℤ◌, ltb_ℤ, max_ℤ}
use k2_market_data_platform.Base.Eq.{◌=?◌, string_eq, nat_eq}
use k2_market_data_platform.Base.Dict.{IsDict, lookup, insert, lookup-insert, insert-IsDict}
use k2_market_data_platform.Base.Sort.{sort, lookup-sort, sort-IsDict}
use k2_market_data_platform.Offsets.{
  Offsets, Partitions, offset_at, IsOffsets, parts_at-IsDict, insert-IsOffsets,
}
use k2_market_data_platform.Offsets.Evicted.{
  Loss, item_before, log_start_in, losses_of, evicted, move, skip_evicted,
}

-- what the losses say of a partition: the last of them counts
abbrev pub moved_to : List Loss → String → ℕ → Option ℤ
moved_to [] t p = none
moved_to (l ∷ losses) t p =
    prefer (moved_to losses t p)
      (if (l.topic =? t) && l.partition == p then some l.log_start else none)

-- every loss is of a topic that is there
abbrev pub Known : Offsets → List Loss → Type 0
Known d [] = Unit
Known d (l ∷ losses) = ((parts : Partitions) × (lookup l.topic d ≡ some parts)) × Known d losses

move-Known :
    (losses : List Loss) (d : Offsets) (topic : String) (parts : Partitions)
    → Known d losses
    → Known (insert topic parts d) losses
move-Known [] d topic parts h = tt
move-Known (l ∷ losses) d topic parts h = (
  elim (Bool-cases (topic =? l.topic)) [
    | inl e ↦ (parts, rw (lookup-insert topic l.topic parts d, e) refl)
    | inr e ↦ (h.0.0, rw (lookup-insert topic l.topic parts d, e) h.0.1)
  ],
  move-Known losses d topic parts h.1,
)

moved_at :
    (l : Loss) (d : Offsets) (t : String) (p : ℕ) (later : Option ℤ)
    → (known : (parts : Partitions) × (lookup l.topic d ≡ some parts))
    → prefer later (offset_at (insert l.topic (insert l.partition l.log_start known.0) d) t p)
      ≡ prefer
          (prefer later (if (l.topic =? t) && l.partition == p then some l.log_start else none))
          (offset_at d t p)
moved_at l d t p later (parts, e) = ground (
  arith,
  lookup-insert l.topic t (insert l.partition l.log_start parts) d,
  lookup-insert l.partition p l.log_start parts,
  eq_iff l.topic t,
)

-- The repair raises for no list of known topics, and moves what the losses name.
skip_evicted-moves :
    (losses : List Loss) (d : Offsets)
    → Known d losses
    → (r : Offsets) × (skip_evicted d losses ≡ some r)
      × ((t : String) (p : ℕ) → offset_at r t p ≡ prefer (moved_to losses t p) (offset_at d t p))
unfolding skip_evicted move
skip_evicted-moves [] d h = (d, refl, λ t p. refl)
skip_evicted-moves (l ∷ losses) d h =
    let parts = h.0.0 in
    let moved = insert l.topic (insert l.partition l.log_start parts) d in
    let (r, e, at) =
      skip_evicted-moves losses moved
        (move-Known losses d l.topic (insert l.partition l.log_start parts) h.1) in
    (r, ground (arith, h.0.1, e), λ t p. at t p ∙ moved_at l d t p (moved_to losses t p) h.0)

moved_to-append :
    (xs ys : List Loss) (t : String) (p : ℕ)
    → moved_to (xs ++ ys) t p ≡ prefer (moved_to ys t p) (moved_to xs t p)
moved_to-append [] ys t p = ground arith
moved_to-append (l ∷ xs) ys t p = ground (arith, moved_to-append xs ys t p)

-- the log start, if the partition starts below it
abbrev pub repair : ℤ → Option ℤ → Option ℤ
repair log_start none = none
repair log_start (some s) = if ltb_ℤ s log_start then some log_start else none

moved_to-losses_of :
    (earliest : Offsets) (topic : String) (ps : Partitions) (t : String) (p : ℕ)
    → IsDict ps
    → moved_to (losses_of earliest topic ps) t p
      ≡ (if topic =? t then repair (log_start_in earliest topic p) (lookup p ps) else none)
unfolding losses_of lookup
moved_to-losses_of earliest topic [] t p h = ground arith
moved_to-losses_of earliest topic ((q, s) ∷ ps) t p h =
    ground (arith, moved_to-losses_of earliest topic ps t p h.1)

moved_to-evicted :
    (starts earliest : Offsets) (t : String) (p : ℕ)
    → IsOffsets starts
    → moved_to (evicted starts earliest) t p
      ≡ repair (log_start_in earliest t p) (offset_at starts t p)
unfolding evicted lookup
moved_to-evicted [] earliest t p h = refl
moved_to-evicted ((topic, ps) ∷ starts) earliest t p h = ground (
  arith,
  moved_to-append (losses_of earliest topic (sort item_before ps)) (evicted starts earliest) t p,
  moved_to-losses_of earliest topic (sort item_before ps) t p (sort-IsDict item_before ps h.1.0),
  lookup-sort item_before p ps h.1.0,
  moved_to-evicted starts earliest t p (h.0.1, h.1.1),
  eq_iff topic t,
)

losses_of-Known :
    (earliest : Offsets) (topic : String) (ps qs : Partitions) (d : Offsets)
    → lookup topic d ≡ some qs
    → Known d (losses_of earliest topic ps)
unfolding losses_of
losses_of-Known earliest topic [] qs d e = tt
losses_of-Known earliest topic ((p, s) ∷ ps) qs d e =
    elim (Bool-cases (ltb_ℤ s (log_start_in earliest topic p))) [
      | inl h ↦ rw h ((qs, e), losses_of-Known earliest topic ps qs d e)
      | inr h ↦ rw h (losses_of-Known earliest topic ps qs d e)
    ]

Known-append : (d : Offsets) (xs ys : List Loss) → Known d xs → Known d ys → Known d (xs ++ ys)
Known-append d [] ys h k = k
Known-append d (x ∷ xs) ys h k = (h.0, Known-append d xs ys h.1 k)

-- the topics of `starts` are topics of `d`
abbrev Within : Offsets → Offsets → Type 0
Within [] d = Unit
Within ((topic, ps) ∷ starts) d = (lookup topic d ≡ some ps) × Within starts d

Within-cons :
    (starts d : Offsets) (topic : String) (ps : Partitions)
    → lookup topic starts ≡ none
    → Within starts d
    → Within starts ((topic, ps) ∷ d)
unfolding lookup
Within-cons [] d topic ps h w = tt
Within-cons ((t, qs) ∷ starts) d topic ps h w =
    ground (arith, Within-cons starts d topic ps, eq_iff topic t, eq_iff t topic)

Within-refl : (d : Offsets) → IsDict d → Within d d
unfolding lookup
Within-refl [] h = tt
Within-refl ((t, ps) ∷ d) h =
    (ground (arith, eq_iff t t), Within-cons d d t ps h.0 (Within-refl d h.1))

evicted-Known : (starts earliest d : Offsets) → Within starts d → Known d (evicted starts earliest)
unfolding evicted
evicted-Known [] earliest d w = tt
evicted-Known ((t, ps) ∷ starts) earliest d w =
    Known-append d (losses_of earliest t (sort item_before ps)) (evicted starts earliest)
      (losses_of-Known earliest t (sort item_before ps) ps d w.0)
      (evicted-Known starts earliest d w.1)

-- Applied to what `evicted` found, the repair raises nothing, starts at the broker's log start each
-- partition that was below it, and leaves every other partition where it was.
pub skip_evicted-evicted :
    (starts earliest : Offsets)
    → IsOffsets starts
    → (r : Offsets) × (skip_evicted starts (evicted starts earliest) ≡ some r)
      × ((t : String) (p : ℕ)
          → offset_at r t p
            ≡ Option.map (λ s. max_ℤ s (log_start_in earliest t p)) (offset_at starts t p))
unfolding max_ℤ
skip_evicted-evicted starts earliest h =
    let (r, e, at) =
      skip_evicted-moves (evicted starts earliest) starts
        (evicted-Known starts earliest starts (Within-refl starts h.0)) in
    (r, e, λ t p. ground (arith, at t p, moved_to-evicted starts earliest t p h))

move-IsOffsets :
    (l : Loss) (d : Offsets) {r : Offsets} → IsOffsets d → move l d ≡ some r → IsOffsets r
unfolding move
move-IsOffsets l d h e = elim (Option-cases (lookup l.topic d)) [
  | inl missing ↦ ground (arith, missing)
  | inr (parts, found) ↦ subst IsOffsets (ground (arith, found)) (
      insert-IsOffsets l.topic (insert l.partition l.log_start parts) d
        (insert-IsDict l.partition l.log_start parts
          (subst (λ o. IsDict (get_or o [])) found (parts_at-IsDict d l.topic h)))
        h)
]

pub skip_evicted-IsOffsets :
    (losses : List Loss) (d : Offsets) {r : Offsets}
    → IsOffsets d
    → skip_evicted d losses ≡ some r
    → IsOffsets r
unfolding skip_evicted
skip_evicted-IsOffsets [] d h e = subst IsOffsets (ground arith) h
skip_evicted-IsOffsets (l ∷ losses) d h e = elim (Option-cases (move l d)) [
  | inl missing ↦ ground (arith, missing)
  | inr (moved, found) ↦
      skip_evicted-IsOffsets losses moved (move-IsOffsets l d h found) (ground (arith, found))
]

-- `evicted` misses no partition: where it finds none, every start is in the broker's log.
pub evicted-complete :
    (starts earliest : Offsets) (t : String) (p : ℕ) (s : ℤ)
    → IsOffsets starts
    → evicted starts earliest ≡ []
    → offset_at starts t p ≡ some s
    → log_start_in earliest t p ≤ℤ s
evicted-complete starts earliest t p s h e at =
    ground (
      arith,
      at,
      ap (λ (ls : List Loss). moved_to ls t p) e,
      moved_to-evicted starts earliest t p h,
    )
