-- ===== src/Offsets/Bounded/Lookup.antt =====
-- The dicts that `bounded_offsets` returns, read partition by partition.
use k2_market_data_platform.Base.{
  ℕ, String, ◌≡◌, ap, ◌∙◌, refl, ◌⊎◌, inl, inr, Option, none, some, Option-cases, [], ◌∷◌, arith,
}
use mathlib.Core.Option
use k2_market_data_platform.Base.Int.{ℤ, pos, ◌+ℤ◌, ◌≤ℤ◌, int_laws, zero-+ℤ, +ℤ_assoc}
use k2_market_data_platform.Base.Eq.{string_eq, nat_eq}
use k2_market_data_platform.Base.Dict.{lookup, collect, lookup-collect, collect-IsDict}
use k2_market_data_platform.Offsets.{
  Offsets, Partitions, parts_at, offset_at, IsOffsets, parts_at-IsDict, collect-IsOffsets,
}
use k2_market_data_platform.Offsets.Bounded.{
  Broker, Ranges, Plan, start_of, stop_of, left_of, bound_partitions, ranges_of, note_partition,
  note_topic, bound_topics, bounded_offsets, resolve_start, log_start_of, end_of_log_of, instant_of,
}
use k2_market_data_platform.Offsets.Bounded.Stop.{
  UnderInstant, UnderSize, start-le-stop_at, stop_at-greatest, stop_at_bounds,
}

module _ (broker : Broker) (size : ℤ) where
  -- what the partitions of a topic leave unread
  abbrev pub unread : String → Partitions → ℤ
  unread topic [] = pos 0
  unread topic ((p, o) ∷ ps) = left_of broker size topic p o +ℤ unread topic ps

  bound_partitions-starts :
      (topic : String) (r : Ranges) (ps : Partitions)
      → (bound_partitions broker size topic r ps).starts
        ≡ collect (start_of broker size topic) r.starts ps
  unfolding bound_partitions collect
  bound_partitions-starts topic r [] = refl
  bound_partitions-starts topic r ((p, o) ∷ ps) =
      bound_partitions-starts topic (note_partition broker size topic r p o) ps

  bound_partitions-ends :
      (topic : String) (r : Ranges) (ps : Partitions)
      → (bound_partitions broker size topic r ps).ends
        ≡ collect (stop_of broker size topic) r.ends ps
  unfolding bound_partitions collect
  bound_partitions-ends topic r [] = refl
  bound_partitions-ends topic r ((p, o) ∷ ps) =
      bound_partitions-ends topic (note_partition broker size topic r p o) ps

  bound_partitions-backlog :
      (topic : String) (r : Ranges) (ps : Partitions)
      → (bound_partitions broker size topic r ps).backlog ≡ r.backlog +ℤ unread topic ps
  unfolding bound_partitions
  bound_partitions-backlog topic r [] = omega int_laws
  bound_partitions-backlog topic r ((p, o) ∷ ps) =
      bound_partitions-backlog topic (note_partition broker size topic r p o) ps
      ∙ +ℤ_assoc r.backlog (left_of broker size topic p o) (unread topic ps)

  bound_topics-starts :
      (plan : Plan) (d : Offsets)
      → (bound_topics broker size plan d).starts
        ≡ collect (λ topic ps. (ranges_of broker size topic ps).starts) plan.starts d
  unfolding bound_topics collect
  bound_topics-starts plan [] = refl
  bound_topics-starts plan ((t, ps) ∷ d) = bound_topics-starts (note_topic broker size plan t ps) d

  bound_topics-ends :
      (plan : Plan) (d : Offsets)
      → (bound_topics broker size plan d).ends
        ≡ collect (λ topic ps. (ranges_of broker size topic ps).ends) plan.ends d
  unfolding bound_topics collect
  bound_topics-ends plan [] = refl
  bound_topics-ends plan ((t, ps) ∷ d) = bound_topics-ends (note_topic broker size plan t ps) d

  bound_topics-backlog :
      (plan : Plan) (d : Offsets)
      → (bound_topics broker size plan d).backlog
        ≡ collect (λ topic ps. (ranges_of broker size topic ps).backlog) plan.backlog d
  unfolding bound_topics collect
  bound_topics-backlog plan [] = refl
  bound_topics-backlog plan ((t, ps) ∷ d) =
      bound_topics-backlog (note_topic broker size plan t ps) d

  -- Two levels of `collect`, read at a partition.
  module _ (f : String → ℕ → ℤ → ℤ) (g : String → Partitions → Partitions) where
    collect_at :
        ((topic : String) (ps : Partitions) → g topic ps ≡ collect (f topic) [] ps)
        → (d : Offsets) (topic : String) (p : ℕ) → IsOffsets d
        → offset_at (collect g [] d) topic p ≡ Option.map (f topic p) (offset_at d topic p)
    unfolding lookup
    collect_at e d topic p h = ground (
      arith,
      lookup-collect g topic [] d h.0,
      e topic (parts_at d topic),
      lookup-collect (f topic) p [] (parts_at d topic) (parts_at-IsDict d topic h),
    )

  abbrev nothing : Plan
  nothing = record { starts = []; ends = []; backlog = [] }

  abbrev no_ranges : Ranges
  no_ranges = record { starts = []; ends = []; backlog = pos 0 }

  module _ (d : Offsets) (topic : String) (p : ℕ) (h : IsOffsets d) where
    pub starts-bounded_offsets :
        offset_at (bounded_offsets broker size d).starts topic p
        ≡ Option.map (start_of broker size topic p) (offset_at d topic p)
    unfolding bounded_offsets
    starts-bounded_offsets = rw (bound_topics-starts nothing d) (
        collect_at (start_of broker size) _ (λ t ps. bound_partitions-starts t no_ranges ps) d topic
          p h)

    pub ends-bounded_offsets :
        offset_at (bounded_offsets broker size d).ends topic p
        ≡ Option.map (stop_of broker size topic p) (offset_at d topic p)
    unfolding bounded_offsets
    ends-bounded_offsets = rw (bound_topics-ends nothing d) (
        collect_at (stop_of broker size) _ (λ t ps. bound_partitions-ends t no_ranges ps) d topic p
          h)

  -- The backlog of a topic is what its partitions leave unread, and only named topics have one.
  pub backlog-bounded_offsets :
      (d : Offsets) (topic : String)
      → IsOffsets d
      → lookup topic (bounded_offsets broker size d).backlog
        ≡ Option.map (unread topic) (lookup topic d)
  unfolding bounded_offsets lookup
  backlog-bounded_offsets d topic h = ground (
    arith,
    zero-+ℤ (unread topic (parts_at d topic)),
    bound_topics-backlog nothing d,
    lookup-collect (λ t ps. (ranges_of broker size t ps).backlog) topic [] d h.0,
    bound_partitions-backlog topic no_ranges (parts_at d topic),
  )

  -- The range that a run plans for a partition: it starts at the offset asked for, sentinels
  -- resolved, ends no earlier, and its end is the greatest that the log's end, the instant and the
  -- size allow.
  pub record IsRange (topic : String) (p : ℕ) (start end : ℤ) : Type 0 where
    pub no_rewind : start ≤ℤ end
    pub allowed :
        (end ≡ start)
        ⊎ ((end ≤ℤ end_of_log_of broker topic p)
            × UnderInstant (instant_of broker topic p) end
            × UnderSize size start end)
    pub greatest :
        (x : ℤ)
        → x ≤ℤ end_of_log_of broker topic p
        → UnderInstant (instant_of broker topic p) x
        → UnderSize size start x
        → x ≤ℤ end

  pub stop_of-IsRange :
      (topic : String) (p : ℕ) (o : ℤ)
      → IsRange topic p (start_of broker size topic p o) (stop_of broker size topic p o)
  unfolding stop_of
  stop_of-IsRange topic p o = record {
    no_rewind = start-le-stop_at log_end instant size start;
    allowed = stop_at_bounds log_end instant size start;
    greatest = stop_at-greatest log_end instant size start;
  }
    where
      log_end : ℤ
      log_end = end_of_log_of broker topic p

      instant : Option ℤ
      instant = instant_of broker topic p

      start : ℤ
      start = start_of broker size topic p o

  -- A partition that is not asked for is in neither dict. One that is asked for has a start and an
  -- end: the start is the offset asked for with the sentinels resolved, and the end is the greatest
  -- offset that the log's end, the instant and the size allow, but never below the start. The
  -- offsets asked for are a dict of dicts, no key in it twice.
  pub bounded_offsets-IsRange :
      (d : Offsets) (topic : String) (p : ℕ)
      → IsOffsets d
      → ((offset_at d topic p ≡ none)
          × (offset_at (bounded_offsets broker size d).starts topic p ≡ none)
          × (offset_at (bounded_offsets broker size d).ends topic p ≡ none))
        ⊎ ((o start end : ℤ) × (offset_at d topic p ≡ some o)
            × (offset_at (bounded_offsets broker size d).starts topic p ≡ some start)
            × (offset_at (bounded_offsets broker size d).ends topic p ≡ some end)
            × (start ≡ resolve_start (log_start_of broker topic p) (end_of_log_of broker topic p) o)
            × IsRange topic p start end)
  unfolding start_of
  bounded_offsets-IsRange d topic p h = elim (Option-cases (offset_at d topic p)) [
    | inl e ↦ inl (
      e,
      starts-bounded_offsets d topic p h ∙ ap (Option.map (start_of broker size topic p)) e,
      ends-bounded_offsets d topic p h ∙ ap (Option.map (stop_of broker size topic p)) e,
    )
    | inr (o, e) ↦ inr (
      o,
      start_of broker size topic p o,
      stop_of broker size topic p o,
      e,
      starts-bounded_offsets d topic p h ∙ ap (Option.map (start_of broker size topic p)) e,
      ends-bounded_offsets d topic p h ∙ ap (Option.map (stop_of broker size topic p)) e,
      refl,
      stop_of-IsRange topic p o,
    )
  ]

  pub starts-IsOffsets : (d : Offsets) → IsOffsets (bounded_offsets broker size d).starts
  unfolding bounded_offsets
  starts-IsOffsets d = rw (bound_topics-starts nothing d) (
      collect-IsOffsets (λ topic ps. (ranges_of broker size topic ps).starts)
        (λ t ps.
          rw (bound_partitions-starts t no_ranges ps)
            (collect-IsDict (start_of broker size t) [] ps tt))
        [] d (tt, tt))

  pub ends-IsOffsets : (d : Offsets) → IsOffsets (bounded_offsets broker size d).ends
  unfolding bounded_offsets
  ends-IsOffsets d = rw (bound_topics-ends nothing d) (
      collect-IsOffsets (λ topic ps. (ranges_of broker size topic ps).ends)
        (λ t ps.
          rw (bound_partitions-ends t no_ranges ps)
            (collect-IsDict (stop_of broker size t) [] ps tt))
        [] d (tt, tt))
