-- ===== src/Tests/ConsumerTests.antt =====
-- The consumer, run on small batches.
use k2_market_data_platform.Base.Dict.{insert}
use k2_market_data_platform.Base.Dict.{lookup}
use k2_market_data_platform.SequenceTracker.{check_sequence}
use k2_market_data_platform.SequenceTracker.{classify}
use k2_market_data_platform.SequenceTracker.{first_state}
use k2_market_data_platform.Base.{ℕ, ◌+◌, ◌≡◌, refl, true, none, some, List, [], ◌∷◌, ◌++◌, arith}
use k2_market_data_platform.Base.Int.{pos}
use k2_market_data_platform.DegradationManager.{
  Check, normal, aggressive, default_thresholds, check_and_degrade, calculate_level, contains,
  target, transition,
}
use k2_market_data_platform.LoadShedder.{default_tiers, get_priority, should_process}
use k2_market_data_platform.Consumer.{
  MarketRecord, decoded, Polled, quiet, poll_error, message, Settings, Filling, Round, Attempt,
  written, transient, permanent, Consumer, returned, raised, start_batch, fill, consume_batches,
  run, consume_batch, ends_batch, follow, gather, retry, take_poll, take_record,
}
use k2_market_data_platform.Consumer.Polls.{Kept, records, messages}
use k2_market_data_platform.Consumer.Routed.{Delivery}
use k2_market_data_platform.Consumer.Delivery.{consume_batches-delivers, consume_batches-raises}
use k2_market_data_platform.Consumer.Shutdown.{run-loses}
use k2_market_data_platform.Consumer.Starvation.{fill-ends, run-never_ends}

abbrev consumer_settings : Settings MarketRecord
consumer_settings = record {
  batch_size = 2;
  max_messages = none;
  deserialize = decoded;
  tiers = default_tiers;
  thresholds = default_thresholds;
  gaps = record { gap_threshold = pos 10; reset_window = pos 3600 };
}

abbrev bhp : ℕ → MarketRecord
bhp n = record {
  message_id = n;
  exchange = some "asx";
  symbol = some "BHP";
  source_sequence = some (pos n);
  timestamp = pos n;
}

-- a symbol of no tier
abbrev xyz : ℕ → MarketRecord
xyz n = record {
  message_id = n;
  exchange = some "asx";
  symbol = some "XYZ";
  source_sequence = none;
  timestamp = pos n;
}

abbrev new_consumer : Consumer
new_consumer = record {
  manager = record { level = normal; last_degradation_time = none; history = [] };
  shedder = record { total_checked = 0; total_shed = 0 };
  tracker = [];
  stats = record { messages_consumed = 0; messages_written = 0; errors = 0; sequence_gaps = 0 };
  table = [];
  dlq = [];
  delivered = 0;
  committed = 0;
}

abbrev at_lag : ℕ → Check
at_lag n = record { lag = n; heap_pct = 0; checked_at = 0; moved_at = 0; noted_at = 0 }

abbrev round_of : ℕ → Attempt → Round
round_of lag a = record { check = at_lag lag; attempts = λ _. a; dlq_writes = true; commits = true }

abbrev some_polls : List (Polled MarketRecord)
some_polls =
    message (bhp 1)
    ∷ quiet
    ∷ message (xyz 2)
    ∷ poll_error
    ∷ message (bhp 3)
    ∷ message (bhp 4)
    ∷ quiet
    ∷ message (bhp 5)
    ∷ []

abbrev three_rounds : List Round
three_rounds = round_of 0 written ∷ round_of 1000000 permanent ∷ []

abbrev after_three : Consumer
after_three = elim (consume_batches consumer_settings new_consumer some_polls three_rounds) [
  | none ↦ new_consumer
  | some r ↦ elim r.0 [ returned c ↦ c | raised c ↦ c ]
]

consume_batches-delivers_example :
    Delivery consumer_settings new_consumer some_polls after_three
      (quiet ∷ message (bhp 5) ∷ [])
      []
      []
    × (after_three.committed ≡ after_three.delivered)
unfolding consume_batches consume_batch fill ends_batch take_poll take_record check_and_degrade
    target calculate_level gather follow retry transition should_process get_priority contains
consume_batches-delivers_example =
    consume_batches-delivers consumer_settings (omega arith) new_consumer after_three some_polls
      (quiet ∷ message (bhp 5) ∷ []) three_rounds refl refl

abbrev failing_rounds : List Round
failing_rounds = round_of 0 written ∷ round_of 0 transient ∷ []

abbrev after_failing : Consumer
after_failing = elim (consume_batches consumer_settings new_consumer some_polls failing_rounds) [
  | none ↦ new_consumer
  | some r ↦ elim r.0 [ returned c ↦ c | raised c ↦ c ]
]

consume_batches-raises_example :
    (left : List (Polled MarketRecord)) × (table : List MarketRecord) × (dlq : List MarketRecord)
    × Delivery consumer_settings new_consumer some_polls after_failing left table dlq
unfolding consume_batches consume_batch fill ends_batch take_poll take_record check_and_degrade
    target calculate_level gather follow retry
consume_batches-raises_example =
    consume_batches-raises consumer_settings (omega arith) new_consumer after_failing some_polls
      (message (bhp 4) ∷ quiet ∷ message (bhp 5) ∷ []) failing_rounds refl refl

abbrev first_filling : Filling
first_filling = record (start_batch new_consumer) {
  batch = bhp 1 ∷ [];
  stats = record { messages_consumed = 1; messages_written = 0; errors = 0; sequence_gaps = 0 };
  tracker =
      (
        ("asx", "BHP"),
        record {
          last_sequence = pos 1;
          last_timestamp = pos 1;
          total_messages = 1;
          gap_count = 0;
          out_of_order_count = 0;
        },
      )
      ∷ [];
  delivered = 1;
}

run-loses_example :
    (d : Consumer) × (used : List (Polled MarketRecord)) × (run consumer_settings new_consumer
        (message (bhp 1) ∷ quiet ∷ [])
        (round_of 0 transient ∷ [])
        true
      ≡ some d)
    × (message (bhp 1) ∷ quiet ∷ [] ≡ used ++ [])
    × (d.committed ≡ 0 + messages used)
    × Kept default_tiers (bhp 1 ∷ []) (records decoded used)
    × (d.table ≡ [])
    × (d.dlq ≡ [])
unfolding fill ends_batch take_poll take_record check_and_degrade target calculate_level gather
    follow check_sequence classify insert lookup first_state
run-loses_example =
    run-loses consumer_settings new_consumer first_filling (message (bhp 1) ∷ quiet ∷ []) []
      (round_of 0 transient) [] refl refl (omega arith) (refl, refl, refl)

fill-ends_example :
    (end : Filling × List (Polled MarketRecord)) × (fill consumer_settings aggressive
        (start_batch new_consumer)
        (message (xyz 1) ∷ message (bhp 2) ∷ message (xyz 3) ∷ quiet ∷ [])
      ≡ some end)
unfolding should_process get_priority contains
fill-ends_example =
    fill-ends consumer_settings aggressive (start_batch new_consumer) (message (xyz 1) ∷ [])
      (message (xyz 3) ∷ []) [] (bhp 2) (bhp 2) refl refl

run-never_ends_example :
    run consumer_settings new_consumer
      (message (xyz 1) ∷ quiet ∷ message (xyz 2) ∷ quiet ∷ [])
      (round_of 1000000 written ∷ [])
      true
    ≡ none
unfolding check_and_degrade target calculate_level transition should_process get_priority contains
run-never_ends_example =
    run-never_ends consumer_settings new_consumer
      (message (xyz 1) ∷ quiet ∷ message (xyz 2) ∷ quiet ∷ []) (round_of 1000000 written) [] true
      (omega arith) refl (refl, (refl, tt))
