-- ===== src/Consumer.antt =====
-- legacy/v1/src/k2/ingestion/consumer.py: MarketDataConsumer, from its polls to the write and the commit.
-- A commit stores how many messages Kafka has delivered. What the polls return, one after the other,
-- the deserializer, the clock, the lag, the outcome of each write to Iceberg, of a write to the dead
-- letter queue and of each commit are inputs. Messages are skipped, shed or gathered in a batch; the
-- batch is written to the table, or to the dead letter queue.
pub mod Polls
pub mod Turns
pub mod Loop
pub mod Routed
pub mod Delivery
pub mod Shutdown
pub mod Starvation
use k2_market_data_platform.Base.{
  ℕ, zero, suc, ◌+◌, String, Bool, true, false, not, ◌&&◌, Option, none, some, List, [], ◌∷◌, ◌++◌,
  length, get_or, if◌then◌else◌, ltb, leb, ◌==◌,
}
use k2_market_data_platform.Base.Int.{ℤ}
use k2_market_data_platform.DegradationManager.{
  DegradationLevel, DegradationManager, DegradationThresholds, Check, value, graceful,
  check_and_degrade,
}
use k2_market_data_platform.LoadShedder.{Tiers, Counters, should_process}
use k2_market_data_platform.SequenceTracker.{
  SequenceEvent, ok, small_gap, large_gap, session_reset, out_of_order, Tracker, Thresholds,
  check_sequence,
}

pub record ConsumerStats : Type 0 where
  pub messages_consumed : ℕ
  pub messages_written : ℕ
  pub errors : ℕ
  pub sequence_gaps : ℕ

-- What the consumer reads of a record: none where the field is missing, or the sequence is None. The
-- timestamp is the one that the tracker is given, the clock's where the record has none.
pub record MarketRecord : Type 0 where
  pub message_id : ℕ
  pub exchange : Option String
  pub symbol : Option String
  pub source_sequence : Option ℤ
  pub timestamp : ℤ

-- a value that does not deserialize, one that holds no record, and a record
pub data Decoding : Type 0 where
  undecodable : Decoding
  no_record : Decoding
  decoded : MarketRecord → Decoding

pub data Polled (V : Type 0) : Type 0 where
  quiet : Polled V
  end_of_partition : Polled V
  poll_error : Polled V
  message : V → Polled V

-- the configuration of a consumer
pub record Settings (V : Type 0) : Type 0 where
  pub batch_size : ℕ
  pub max_messages : Option ℕ
  pub deserialize : V → Decoding
  pub tiers : Tiers
  pub thresholds : DegradationThresholds
  pub gaps : Thresholds

-- what the loop over the polls changes; `delivered` is the position of the Kafka consumer
pub record Filling : Type 0 where
  pub batch : List MarketRecord
  pub stats : ConsumerStats
  pub shedder : Counters
  pub tracker : Tracker
  pub delivered : ℕ

abbrev pub count_error : ConsumerStats → ConsumerStats
count_error s = record s { errors = suc s.errors }

-- only actual gaps are counted
abbrev pub count_gap : SequenceEvent → ConsumerStats → ConsumerStats
count_gap small_gap s = record s { sequence_gaps = suc s.sequence_gaps }
count_gap large_gap s = record s { sequence_gaps = suc s.sequence_gaps }
count_gap ok s = s
count_gap session_reset s = s
count_gap out_of_order s = s

-- the check of a record with a symbol and a sequence
unfoldable pub follow : Thresholds → Filling → MarketRecord → Option String → Option ℤ → Filling
follow gaps f r none sequence = f
follow gaps f r (some symbol) none = f
follow gaps f r (some symbol) (some sequence) =
    let seen = check_sequence gaps f.tracker (record {
      exchange = get_or r.exchange "unknown";
      symbol = symbol;
      sequence = sequence;
      timestamp = r.timestamp;
    }) in
    record f { tracker = seen.1; stats = count_gap seen.0 f.stats }

-- a record that passes the load shedding
unfoldable pub gather : Thresholds → Filling → MarketRecord → Filling
gather gaps f r = follow gaps (record f { batch = f.batch ++ r ∷ [] }) r r.symbol r.source_sequence

abbrev pub after_shedding : Thresholds → Filling → MarketRecord → Bool × Counters → Filling
after_shedding gaps f r (true, counters) = gather gaps (record f { shedder = counters }) r
after_shedding gaps f r (false, counters) = record f { shedder = counters }

abbrev pub count_consumed : Filling → Filling
count_consumed f = record f {
  stats = record (f.stats) { messages_consumed = suc f.stats.messages_consumed };
}

module _ {V : Type 0} (s : Settings V) (level : DegradationLevel) where
  unfoldable pub take_record : Filling → MarketRecord → Filling
  take_record f r =
      if leb (value graceful) (value level)
      then after_shedding s.gaps f r
          (should_process s.tiers f.shedder (get_or r.symbol "unknown") (value level) "trades")
      else gather s.gaps f r

  -- a message's turn, by what it deserializes to
  abbrev pub take_decoding : Filling → Decoding → Filling
  take_decoding f undecodable = record f { stats = count_error f.stats }
  take_decoding f no_record = f
  take_decoding f (decoded r) = take_record (count_consumed f) r

  unfoldable pub take_poll : Filling → Polled V → Filling
  take_poll f quiet = f
  take_poll f end_of_partition = f
  take_poll f poll_error = record f { stats = count_error f.stats }
  take_poll f (message v) =
      take_decoding (record f { delivered = suc f.delivered }) (s.deserialize v)

  abbrev pub is_empty : List MarketRecord → Bool
  is_empty [] = true
  is_empty (r ∷ rs) = false

  -- a poll without a message ends the loop where the batch holds something
  unfoldable pub ends_batch : Filling → Polled V → Bool
  ends_batch f quiet = not (is_empty f.batch)
  ends_batch f end_of_partition = not (is_empty f.batch)
  ends_batch f poll_error = false
  ends_batch f (message v) = false

  -- `while len(batch) < self.batch_size`, with the polls that it leaves; none where they are used up
  -- and the loop goes on
  unfoldable pub fill : Filling → List (Polled V) → Option (Filling × List (Polled V))
  fill f [] = if ltb (length f.batch) s.batch_size then none else some (f, [])
  fill f (p ∷ polls) = elim (ltb (length f.batch) s.batch_size) [
    | false ↦ some (f, p ∷ polls)
    | true ↦ elim (ends_batch f p) [ true ↦ some (f, polls) | false ↦ fill (take_poll f p) polls ]
  ]

-- how one write to Iceberg ends: the errors are those of RETRYABLE_ERRORS, of PERMANENT_ERRORS, others
pub data Attempt : Type 0 where
  written : Attempt
  transient : Attempt
  permanent : Attempt
  unexpected : Attempt

-- `stop_after_attempt(3)`: the last attempt's error is raised again
unfoldable pub retry : ℕ → (ℕ → Attempt) → ℕ → Attempt
retry zero attempts n = attempts n
retry (suc more) attempts n = elim (attempts n) [
  | written ↦ written
  | transient ↦ retry more attempts (suc n)
  | permanent ↦ permanent
  | unexpected ↦ unexpected
]

abbrev pub write_batch_with_retry : (ℕ → Attempt) → Attempt
write_batch_with_retry attempts = retry 2 attempts 0

-- what one batch meets
pub record Round : Type 0 where
  pub check : Check
  pub attempts : ℕ → Attempt
  pub dlq_writes : Bool
  pub commits : Bool

-- the consumer and what it leaves: the table, the dead letter queue and the committed position
pub record Consumer : Type 0 where
  pub manager : DegradationManager
  pub shedder : Counters
  pub tracker : Tracker
  pub stats : ConsumerStats
  pub table : List MarketRecord
  pub dlq : List MarketRecord
  pub delivered : ℕ
  pub committed : ℕ

-- a batch, and the loop over the batches, returns or raises
pub data Result : Type 0 where
  returned : Consumer → Result
  raised : Consumer → Result

-- `self.consumer.commit(asynchronous=False)`, whose error is an unexpected one in the first case
abbrev pub commit_written : Bool → Consumer → Result
commit_written true c = returned (record c { committed = c.delivered })
commit_written false c = raised (record c { stats = count_error c.stats })

abbrev pub commit_skipped : Bool → Consumer → Result
commit_skipped true c = returned (record c { committed = c.delivered })
commit_skipped false c = raised c

abbrev pub dead_letter : Bool → Bool → Consumer → List MarketRecord → Result
dead_letter false commits c batch = raised c
dead_letter true commits c batch =
    commit_skipped commits (record c { dlq = c.dlq ++ batch; stats = count_error c.stats })

abbrev pub after_write : Bool → Bool → Consumer → List MarketRecord → Attempt → Result
after_write dlq_writes commits c batch written = commit_written commits (record c {
  table = c.table ++ batch;
  stats = record (c.stats) { messages_written = c.stats.messages_written + length batch };
})
after_write dlq_writes commits c batch permanent = dead_letter dlq_writes commits c batch
after_write dlq_writes commits c batch transient = raised (record c { stats = count_error c.stats })
after_write dlq_writes commits c batch unexpected =
    raised (record c { stats = count_error c.stats })

-- `if batch:`
abbrev pub write_batch : Bool → Bool → (ℕ → Attempt) → Consumer → List MarketRecord → Result
write_batch dlq_writes commits attempts c [] = returned c
write_batch dlq_writes commits attempts c (r ∷ rs) =
    after_write dlq_writes commits c (r ∷ rs) (write_batch_with_retry attempts)

-- the consumer after the loop over the polls
abbrev pub filled : Consumer → DegradationManager → Filling → Consumer
filled c manager f = record c {
  manager = manager;
  shedder = f.shedder;
  tracker = f.tracker;
  stats = f.stats;
  delivered = f.delivered;
}

abbrev pub start_batch : Consumer → Filling
start_batch c = record {
  batch = [];
  stats = c.stats;
  shedder = c.shedder;
  tracker = c.tracker;
  delivered = c.delivered;
}

-- `self.max_messages and ... >= self.max_messages`
abbrev pub at_limit : Option ℕ → ℕ → Bool
at_limit none consumed = false
at_limit (some limit) consumed = not (limit == 0) && leb limit consumed

-- `_shutdown`: the error of its commit is caught
abbrev pub shutdown : Bool → Consumer → Consumer
shutdown true c = record c { committed = c.delivered }
shutdown false c = c

-- the `finally` of `run` follows the loop whether or not a batch raised
abbrev pub stopped : Bool → Result → Consumer
stopped commits (returned c) = shutdown commits c
stopped commits (raised c) = shutdown commits c

module _ {V : Type 0} (s : Settings V) where
  abbrev pub after_fill :
      Consumer
      → DegradationManager
      → Round
      → Option (Filling × List (Polled V))
      → Option (Result × List (Polled V))
  after_fill c manager r none = none
  after_fill c manager r (some (f, rest)) =
      some (write_batch r.dlq_writes r.commits r.attempts (filled c manager f) f.batch, rest)

  -- what a batch ends in and the polls that it leaves; none where it is still polling
  unfoldable pub consume_batch :
      Consumer → List (Polled V) → Round → Option (Result × List (Polled V))
  consume_batch c polls r =
      let manager = check_and_degrade s.thresholds c.manager r.check in
      after_fill c manager r (fill s manager.level (start_batch c) polls)

  abbrev pub continued :
      (Consumer → List (Polled V) → Option (Result × List (Polled V)))
      → Option (Result × List (Polled V))
      → Option (Result × List (Polled V))
  continued next none = none
  continued next (some (raised c, rest)) = some (raised c, rest)
  continued next (some (returned c, rest)) = next c rest

  -- the loop of `run`, which is told to stop when the rounds are used up
  unfoldable pub consume_batches :
      Consumer → List (Polled V) → List Round → Option (Result × List (Polled V))
  consume_batches c polls [] = some (returned c, polls)
  consume_batches c polls (r ∷ rounds) = elim (at_limit s.max_messages c.stats.messages_consumed) [
    | true ↦ some (returned c, polls)
    | false ↦ continued (λ next rest. consume_batches next rest rounds) (consume_batch c polls r)
  ]

  abbrev pub ended : Bool → Option (Result × List (Polled V)) → Option Consumer
  ended commits none = none
  ended commits (some (result, rest)) = some (stopped commits result)

  -- the consumer when `run` ends; none where a batch is still polling
  unfoldable pub run : Consumer → List (Polled V) → List Round → Bool → Option Consumer
  run c polls rounds commits = ended commits (consume_batches c polls rounds)
