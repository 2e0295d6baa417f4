-- ===== src/Consumer/Turns.antt =====
-- One turn of the loop over the polls.
use k2_market_data_platform.Base.{
  ℕ, suc, ◌+◌, ◌≤◌, ◌≡◌, refl, sym, ap, ◌∙◌, Bool, true, false, Bool-cases, inl, inr, ◌⊎◌, none,
  some, Option, List, [], ◌∷◌, ◌++◌, append-nil, length, get_or, String, leb, arith,
}
use k2_market_data_platform.Base.Int.{ℤ}
use k2_market_data_platform.DegradationManager.{DegradationLevel, contains, value, graceful}
use k2_market_data_platform.LoadShedder.{Tiers, Counters, should_process}
use k2_market_data_platform.LoadShedder.Shedding.{should_process-critical}
use k2_market_data_platform.SequenceTracker.{
  SequenceEvent, ok, small_gap, large_gap, session_reset, out_of_order, Thresholds,
}
use k2_market_data_platform.Consumer.{
  ConsumerStats, MarketRecord, Decoding, undecodable, no_record, decoded, Polled, quiet,
  end_of_partition, poll_error, message, Settings, Filling, count_consumed, count_gap, follow,
  gather, after_shedding, take_record, take_decoding, take_poll,
}
use k2_market_data_platform.Consumer.Polls.{
  Sheddable, Kept, kept_none, keeps, sheds, record_of, records, messages,
}

-- nothing but the batch, the tracker, the shedder and the other counts differ
abbrev SameCounts : Filling → Filling → Type 0
SameCounts f g =
    (g.delivered ≡ f.delivered)
    × (g.stats.messages_consumed ≡ f.stats.messages_consumed)
    × (g.stats.messages_written ≡ f.stats.messages_written)

count_gap-counts :
    (st : ConsumerStats) (e : SequenceEvent)
    → ((count_gap e st).messages_consumed ≡ st.messages_consumed)
      × ((count_gap e st).messages_written ≡ st.messages_written)
count_gap-counts st ok = (refl, refl)
count_gap-counts st small_gap = (refl, refl)
count_gap-counts st large_gap = (refl, refl)
count_gap-counts st session_reset = (refl, refl)
count_gap-counts st out_of_order = (refl, refl)

module _ (gaps : Thresholds) (f : Filling) (r : MarketRecord) where
  follow-batch :
      (symbol : Option String) (sequence : Option ℤ)
      → ((follow gaps f r symbol sequence).batch ≡ f.batch)
        × SameCounts f (follow gaps f r symbol sequence)
  unfolding follow
  follow-batch none sequence = (refl, (refl, refl, refl))
  follow-batch (some symbol) none = (refl, (refl, refl, refl))
  follow-batch (some symbol) (some sequence) =
      let h = count_gap-counts f.stats _ in (refl, (refl, h.0, h.1))

pub gather-batch :
    (gaps : Thresholds) (f : Filling) (r : MarketRecord)
    → ((gather gaps f r).batch ≡ f.batch ++ r ∷ []) × SameCounts f (gather gaps f r)
unfolding gather
gather-batch gaps f r =
    follow-batch gaps (record f { batch = f.batch ++ r ∷ [] }) r r.symbol r.source_sequence

value_le : (level : DegradationLevel) → value level ≤ 4
value_le level = ground arith

-- A message is processed, at every level, or it may be shed.
processed_or_Sheddable :
    (t : Tiers) (n : Counters) (level : DegradationLevel) (r : MarketRecord)
    → ((should_process t n (get_or r.symbol "unknown") (value level) "trades").0 ≡ true)
      ⊎ Sheddable t r
processed_or_Sheddable t n level r =
    elim (Bool-cases (contains (get_or r.symbol "unknown") t.tier_1)) [
      | inl first ↦ inl (
          should_process-critical t n (get_or r.symbol "unknown") "trades" (value level) first refl
            (value_le level))
      | inr later ↦ inr later
    ]

module _ {V : Type 0} (s : Settings V) (level : DegradationLevel) where
  after_shedding-batch :
      (f : Filling) (r : MarketRecord) (b : Bool) (n : Counters)
      → (b ≡ true) ⊎ Sheddable s.tiers r
      → (((after_shedding s.gaps f r (b, n)).batch ≡ f.batch ++ r ∷ [])
          ⊎ (((after_shedding s.gaps f r (b, n)).batch ≡ f.batch) × Sheddable s.tiers r))
        × SameCounts f (after_shedding s.gaps f r (b, n))
  after_shedding-batch f r true n h =
      let g = gather-batch s.gaps (record f { shedder = n }) r in (inl g.0, g.1)
  after_shedding-batch f r false n (inr h) = (inr (refl, h), (refl, refl, refl))
  after_shedding-batch f r false n (inl h) = cc

  take_record-batch :
      (f : Filling) (r : MarketRecord)
      → (((take_record s level f r).batch ≡ f.batch ++ r ∷ [])
          ⊎ (((take_record s level f r).batch ≡ f.batch) × Sheddable s.tiers r))
        × SameCounts f (take_record s level f r)
  unfolding take_record
  take_record-batch f r = elim (Bool-cases (leb (value graceful) (value level))) [
    | inl high ↦
        rw high (after_shedding-batch f r _ _ (processed_or_Sheddable s.tiers f.shedder level r))
    | inr low ↦ rw low (let g = gather-batch s.gaps f r in (inl g.0, g.1))
  ]

module _ {V : Type 0} (s : Settings V) where
  -- One poll that does not end the loop, with the records and the number of messages that it
  -- returns: `f` becomes `m`.
  pub record Turn (f : Filling) (rs : List MarketRecord) (n : ℕ) (m : Filling) : Type 0 where
    pub kept : List MarketRecord
    pub batch_is : m.batch ≡ f.batch ++ kept
    pub short : length kept ≤ 1
    pub of_records : Kept s.tiers kept rs
    pub delivered_is : m.delivered ≡ f.delivered + n
    pub consumed_is : m.stats.messages_consumed ≡ f.stats.messages_consumed + length rs
    pub written_is : m.stats.messages_written ≡ f.stats.messages_written

module _ {V : Type 0} (s : Settings V) (level : DegradationLevel) where
  -- nothing for the batch
  passed :
      (f m : Filling) (n : ℕ)
      → m.batch ≡ f.batch
      → m.delivered ≡ f.delivered + n
      → m.stats.messages_consumed ≡ f.stats.messages_consumed
      → m.stats.messages_written ≡ f.stats.messages_written
      → Turn s f [] n m
  passed f m n b d c w = record {
    kept = [];
    batch_is = b ∙ sym (append-nil f.batch);
    short = omega arith;
    of_records = kept_none;
    delivered_is = d;
    consumed_is = omega (arith, c);
    written_is = w;
  }

  take_decoding-Turn :
      (f m : Filling) (d : Decoding)
      → m.batch ≡ f.batch
      → m.delivered ≡ f.delivered + 1
      → m.stats.messages_consumed ≡ f.stats.messages_consumed
      → m.stats.messages_written ≡ f.stats.messages_written
      → Turn s f (record_of d ++ []) 1 (take_decoding s level m d)
  take_decoding-Turn f m undecodable b d c w = passed f _ 1 b d c w
  take_decoding-Turn f m no_record b d c w = passed f m 1 b d c w
  take_decoding-Turn f m (decoded r) b d c w =
      let t = take_record-batch s level (count_consumed m) r in
      elim t.0 [
        | inl put ↦ record {
          kept = r ∷ [];
          batch_is = put ∙ ap (λ rs. rs ++ r ∷ []) b;
          short = omega arith;
          of_records = keeps r kept_none;
          delivered_is = t.1.0 ∙ d;
          consumed_is = omega (arith, t.1.1, c);
          written_is = t.1.2 ∙ w;
        }
        | inr left ↦ record {
          kept = [];
          batch_is = left.0 ∙ b ∙ sym (append-nil f.batch);
          short = omega arith;
          of_records = sheds r left.1 kept_none;
          delivered_is = t.1.0 ∙ d;
          consumed_is = omega (arith, t.1.1, c);
          written_is = t.1.2 ∙ w;
        }
      ]

  pub take_poll-Turn :
      (f : Filling) (p : Polled V)
      → Turn s f (records s.deserialize (p ∷ [])) (messages (p ∷ [])) (take_poll s level f p)
  unfolding take_poll
  take_poll-Turn f quiet = passed f f 0 refl (omega arith) refl refl
  take_poll-Turn f end_of_partition = passed f f 0 refl (omega arith) refl refl
  take_poll-Turn f poll_error = passed f _ 0 refl (omega arith) refl refl
  take_poll-Turn f (message v) =
      take_decoding-Turn f (record f { delivered = suc f.delivered }) (s.deserialize v) refl
        (omega arith) refl refl
