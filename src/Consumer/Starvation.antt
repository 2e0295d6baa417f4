-- ===== src/Consumer/Starvation.antt =====
-- When the loop over the polls ends: the level is checked before it, and only there.
use k2_market_data_platform.Base.{
  ℕ, suc, ◌≤◌, ◌≡◌, refl, ap, ◌∙◌, Bool, true, false, not, ◌&&◌, Bool-cases, inl, inr, none, some,
  Option, List, [], ◌∷◌, ◌++◌, length, length-append, get_or, All, ltb, leb, String, arith,
}
use k2_market_data_platform.DegradationManager.{
  DegradationLevel, value, graceful, check_and_degrade,
}
use k2_market_data_platform.LoadShedder.{Tiers, Counters, should_process}
use k2_market_data_platform.Consumer.{
  MarketRecord, Decoding, undecodable, no_record, decoded, Polled, quiet, end_of_partition,
  poll_error, message, Settings, Filling, Round, Consumer, start_batch, at_limit, count_consumed,
  after_shedding, gather, consume_batch, consume_batches, run, take_record, take_decoding,
  take_poll, ends_batch, fill,
}
use k2_market_data_platform.Consumer.Polls.{record_of, records}
use k2_market_data_platform.Consumer.Turns.{take_poll-Turn, gather-batch}

abbrev no_counts : Counters
no_counts = record { total_checked = 0; total_shed = 0 }

-- A record that is shed at this level.
abbrev pub drops : Tiers → DegradationLevel → MarketRecord → Bool
drops t level r =
    leb (value graceful) (value level)
    && not (should_process t no_counts (get_or r.symbol "unknown") (value level) "trades").0

-- The decision does not look at the counters.
should_process-counters :
    (t : Tiers) (n k : Counters) (symbol : String) (level : ℕ)
    → (should_process t n symbol level "trades").0 ≡ (should_process t k symbol level "trades").0
unfolding should_process
should_process-counters t n k symbol level = ground arith

All-split :
    (P : MarketRecord → Type 0) (rs qs : List MarketRecord) → All P (rs ++ qs) → All P rs × All P qs
All-split P [] qs h = (tt, h)
All-split P (r ∷ rs) qs h = let k = All-split P rs qs h.1 in ((h.0, k.0), k.1)

abbrev is_ended : {A : Type 0} → Option A → Bool
is_ended none = false
is_ended (some a) = true

module _ {V : Type 0} (s : Settings V) (level : DegradationLevel) where
  room_in :
      (f : Filling) → 1 ≤ s.batch_size → f.batch ≡ [] → ltb (length f.batch) s.batch_size ≡ true
  room_in f one empty = ground (arith, one, empty)

  take_record-drops :
      (f : Filling) (r : MarketRecord)
      → drops s.tiers level r ≡ true
      → (take_record s level f r).batch ≡ f.batch
  unfolding take_record
  take_record-drops f r d = ground (
    arith,
    d,
    should_process-counters s.tiers no_counts f.shedder (get_or r.symbol "unknown") (value level),
  )

  take_decoding-drops :
      (f : Filling) (d : Decoding)
      → All (λ r. drops s.tiers level r ≡ true) (record_of d)
      → (take_decoding s level f d).batch ≡ f.batch
  take_decoding-drops f undecodable h = refl
  take_decoding-drops f no_record h = refl
  take_decoding-drops f (decoded r) h = take_record-drops (count_consumed f) r h.0

  take_poll-drops :
      (f : Filling) (p : Polled V) (polls : List (Polled V))
      → All (λ r. drops s.tiers level r ≡ true) (records s.deserialize (p ∷ polls))
      → ((take_poll s level f p).batch ≡ f.batch)
        × All (λ r. drops s.tiers level r ≡ true) (records s.deserialize polls)
  unfolding take_poll
  take_poll-drops f quiet polls h = (refl, h)
  take_poll-drops f end_of_partition polls h = (refl, h)
  take_poll-drops f poll_error polls h = (refl, h)
  take_poll-drops f (message v) polls h =
      let k = All-split _ (record_of (s.deserialize v)) (records s.deserialize polls) h in
      (take_decoding-drops (record f { delivered = suc f.delivered }) (s.deserialize v) k.0, k.1)

  empty_goes_on : (f : Filling) (p : Polled V) → f.batch ≡ [] → ends_batch s level f p ≡ false
  unfolding ends_batch
  empty_goes_on f p h = ground (arith, h)

  fill-starves :
      (f : Filling) (polls : List (Polled V))
      → 1 ≤ s.batch_size
      → f.batch ≡ []
      → All (λ r. drops s.tiers level r ≡ true) (records s.deserialize polls)
      → fill s level f polls ≡ none
  unfolding fill
  fill-starves f [] one empty h = rw (room_in f one empty, fill) refl
  fill-starves f (p ∷ polls) one empty h =
      let k = take_poll-drops f p polls h in
      rw (room_in f one empty, empty_goes_on f p empty, fill)
        (fill-starves (take_poll s level f p) polls one (k.0 ∙ empty) k.1)

  -- a record that is not shed
  take_record-fills :
      (f : Filling) (r : MarketRecord)
      → drops s.tiers level r ≡ false
      → 1 ≤ length (take_record s level f r).batch
  unfolding take_record
  take_record-fills f r d = elim (Bool-cases (leb (value graceful) (value level))) [
    | inl high ↦ rw high (put f.shedder _ refl (answered high))
    | inr low ↦ rw low (gathered f)
  ]
    where
      gathered : (g : Filling) → 1 ≤ length (gather s.gaps g r).batch
      gathered g =
          omega (arith, ap length (gather-batch s.gaps g r).0, length-append g.batch (r ∷ []))

      answered :
          leb (value graceful) (value level) ≡ true
          → (should_process s.tiers f.shedder (get_or r.symbol "unknown") (value level) "trades").0
            ≡ true
      answered high = ground (
        arith,
        d,
        high,
        should_process-counters s.tiers no_counts f.shedder (get_or r.symbol "unknown")
            (value level),
      )

      put :
          (n : Counters) (b : Bool × Counters)
          → n ≡ f.shedder
          → b.0 ≡ true
          → 1 ≤ length (after_shedding s.gaps f r b).batch
      put n (true, k) same h = gathered (record f { shedder = k })
      put n (false, k) same h = cc

  longer :
      (f : Filling) (p : Polled V) → 1 ≤ length f.batch → 1 ≤ length (take_poll s level f p).batch
  longer f p h =
      let t = take_poll-Turn s level f p in
      omega (arith, ap length t.batch_is, length-append f.batch t.kept, h)

  quiet-ends : (f : Filling) → 1 ≤ length f.batch → ends_batch s level f quiet ≡ true
  unfolding ends_batch
  quiet-ends f h = ground (arith, h)

  fill_some-ends :
      (f : Filling) (polls post : List (Polled V))
      → 1 ≤ length f.batch
      → is_ended (fill s level f (polls ++ quiet ∷ post)) ≡ true
  unfolding fill
  fill_some-ends f [] post some_there = elim (Bool-cases (ltb (length f.batch) s.batch_size)) [
    | inr full ↦ rw (full, fill) refl
    | inl room ↦ rw (room, quiet-ends f some_there, fill) refl
  ]
  fill_some-ends f (p ∷ polls) post some_there =
      elim (Bool-cases (ltb (length f.batch) s.batch_size)) [
        | inr full ↦ rw (full, fill) refl
        | inl room ↦ elim (Bool-cases (ends_batch s level f p)) [
          | inl over ↦ rw (room, over, fill) refl
          | inr going ↦
              rw (room, going, fill)
                (fill_some-ends (take_poll s level f p) polls post (longer f p some_there))
        ]
      ]

  take_poll-fills :
      (f : Filling) (v : V) (r : MarketRecord)
      → s.deserialize v ≡ decoded r
      → drops s.tiers level r ≡ false
      → 1 ≤ length (take_poll s level f (message v)).batch
  unfolding take_poll
  take_poll-fills f v r e d = rw e (take_record-fills _ r d)

  -- The loop over the polls ends if they bring a record that is not shed at its level, and a quiet
  -- poll after it, whatever else they bring.
  pub fill-ends :
      (f : Filling) (pre polls post : List (Polled V)) (v : V) (r : MarketRecord)
      → s.deserialize v ≡ decoded r
      → drops s.tiers level r ≡ false
      → (end : Filling × List (Polled V)) × (fill s level f
            (pre ++ message v ∷ (polls ++ quiet ∷ post))
          ≡ some end)
  unfolding fill ends_batch
  fill-ends f pre polls post v r e d =
      found (fill s level f (pre ++ message v ∷ (polls ++ quiet ∷ post))) (reached f pre)
    where
      found : {A : Type 0} (o : Option A) → is_ended o ≡ true → (a : A) × (o ≡ some a)
      found none h = cc
      found (some a) h = (a, refl)

      reached :
          (f : Filling) (pre : List (Polled V))
          → is_ended (fill s level f (pre ++ message v ∷ (polls ++ quiet ∷ post))) ≡ true
      reached f [] = elim (Bool-cases (ltb (length f.batch) s.batch_size)) [
        | inr full ↦ rw (full, fill) refl
        | inl room ↦
            rw (room, fill)
              (fill_some-ends (take_poll s level f (message v)) polls post
                (take_poll-fills f v r e d))
      ]
      reached f (p ∷ pre) = elim (Bool-cases (ltb (length f.batch) s.batch_size)) [
        | inr full ↦ rw (full, fill) refl
        | inl room ↦ elim (Bool-cases (ends_batch s level f p)) [
          | inl over ↦ rw (room, over, fill) refl
          | inr going ↦ rw (room, going, fill) (reached (take_poll s level f p) pre)
        ]
      ]

module _ {V : Type 0} (s : Settings V) where
  -- A run does not end, however many polls there are, if these bring no record but what is shed at
  -- the level that was checked at the start of the batch. The batches are of one record or more,
  -- and the limit of messages is not reached before.
  pub run-never_ends :
      (c : Consumer) (polls : List (Polled V)) (r : Round) (rounds : List Round) (commits : Bool)
      → 1 ≤ s.batch_size
      → at_limit s.max_messages c.stats.messages_consumed ≡ false
      → All
          (λ m. drops s.tiers (check_and_degrade s.thresholds c.manager r.check).level m ≡ true)
          (records s.deserialize polls)
      → run s c polls (r ∷ rounds) commits ≡ none
  unfolding run consume_batches consume_batch
  run-never_ends c polls r rounds commits one more h =
      rw (more, consume_batches, fill-starves s _ (start_batch c) polls one refl h) refl
