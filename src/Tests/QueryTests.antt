-- ===== src/Tests/QueryTests.antt =====
-- The tail of Kafka and the hybrid query, on a few messages.
use k2_market_data_platform.Base.Dict.{lookup}
use k2_market_data_platform.Base.Sort.{place}
use k2_market_data_platform.Base.Sort.{sort}
use k2_market_data_platform.DegradationManager.{contains}
use k2_market_data_platform.Base.{
  ℕ, ◌≤◌, ◌≡◌, ◌⊎◌, refl, String, none, some, List, [], ◌∷◌, ◌++◌, length, take, arith,
}
use k2_market_data_platform.KafkaTail.{
  TailMessage, TailSettings, Tail, Payload, TailPoll, no_message, incoming, consume_loop,
  symbol_messages, trim_old_messages, fresh_tail, query, tail_message,
}
use k2_market_data_platform.KafkaTail.Answers.{Answers}
use k2_market_data_platform.KafkaTail.Accounts.{Accounted, consume_loop-Accounted}
use k2_market_data_platform.KafkaTail.Window.{received, query-received}
use k2_market_data_platform.KafkaTail.Stale.{trim_old_messages-stale}
use k2_market_data_platform.HybridQuery.{
  Stamp, text, instant, TradeRecord, dedupe, merge_results, sort_by_timestamp,
}
use k2_market_data_platform.HybridQuery.Merge.{with_id, merge_results-once, merge_results-raises}

abbrev tail_settings : TailSettings
tail_settings = record { buffer_window = 300; max_messages_per_symbol = 2; trim_interval = 10 }

-- the values of the messages are parsed already
abbrev payload : String → ℕ → Payload ℕ
payload id n = record {
  symbol = some "BTCUSDT";
  exchange = some "binance";
  message_id = some id;
  timestamp_str = none;
  message_data = n;
}

abbrev sent : String → ℕ → TailPoll (Payload ℕ)
sent id at = incoming (record { value = some (payload id at); sent_at = at })

abbrev tail_polls : List (TailPoll (Payload ℕ))
tail_polls = sent "a" 1000 ∷ no_message 1011 1350 ∷ sent "b" 1340 ∷ no_message 1012 1400 ∷ []

consume_loop-Accounted_example :
    Accounted 2 (consume_loop tail_settings some (λ s. none) (fresh_tail 0) tail_polls)
unfolding lookup
consume_loop-Accounted_example =
    consume_loop-Accounted tail_settings some (λ s. none) (fresh_tail 0) tail_polls
      (record { distinct = tt; bounded = λ k. omega arith; balance = refl })

query-received_example :
    Answers "binance" 1200 2000 (received some (λ s. none) "BTCUSDT" tail_polls) (
      query "BTCUSDT" "binance" 1200 2000
        (consume_loop tail_settings some (λ s. none) (fresh_tail 0) tail_polls))
unfolding tail_message
query-received_example =
    query-received tail_settings "BTCUSDT" 1200 some (λ s. none) "binance" 2000 0 tail_polls
      (tt, (omega arith, (tt, (omega arith, tt)))) (omega arith)

abbrev old_message : TailMessage ℕ
old_message = record {
  symbol = "BTCUSDT";
  exchange = "binance";
  timestamp = 1000;
  message_id = "a";
  message_data = 1000;
}

abbrev old_tail : Tail ℕ
old_tail = record (fresh_tail 0) { buffer = ("BTCUSDT", old_message ∷ []) ∷ [] }

trim_old_messages-stale_example :
    symbol_messages "BTCUSDT" (trim_old_messages tail_settings 9000 old_tail)
    ≡ symbol_messages "BTCUSDT" old_tail
unfolding lookup
trim_old_messages-stale_example =
    trim_old_messages-stale tail_settings 9000 "BTCUSDT" old_tail (refl, tt) (refl, tt)

abbrev trade : String → Stamp → TradeRecord ℕ
trade id t = record { message_id = some id; timestamp = t; rest = 0 }

abbrev of_iceberg : List (TradeRecord ℕ)
of_iceberg = trade "b" (instant 2) ∷ trade "a" (instant 1) ∷ []

-- the buffer holds the newest record of Iceberg too, its time a text
abbrev of_kafka : List (TradeRecord ℕ)
of_kafka = trade "b" (text "2026-01-01T00:00:02Z") ∷ []

abbrev merged : List (TradeRecord ℕ)
merged = trade "a" (instant 1) ∷ trade "b" (instant 2) ∷ []

merge_results-once_example :
    (length merged ≤ 5)
    × ((with_id "b" merged ≡ take 1 (with_id "b" of_iceberg ++ with_id "b" of_kafka))
        ⊎ ((with_id "b" merged ≡ []) × (length merged ≡ 5)))
unfolding merge_results sort_by_timestamp dedupe contains sort place
merge_results-once_example = merge_results-once of_iceberg of_kafka merged 5 "b" refl

merge_results-raises_example :
    merge_results
      (trade "a" (instant 1) ∷ [])
      ([] ++ trade "b" (text "2026-01-01T00:00:00Z") ∷ [])
      100
    ≡ none
merge_results-raises_example =
    merge_results-raises (trade "a" (instant 1)) [] [] [] (trade "b" (text "2026-01-01T00:00:00Z"))
      "b" 100 refl refl refl refl
