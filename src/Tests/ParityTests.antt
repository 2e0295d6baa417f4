-- ===== src/Tests/ParityTests.antt =====
-- Two tiers' trades of two symbols, and a topic of two partitions.
use k2_market_data_platform.Base.{
  ℕ, ◌≡◌, refl, String, true, false, Option, some, List, [], ◌∷◌, ◌++◌, length, All,
}
use k2_market_data_platform.Base.Int.{ℤ, pos, ◌-ℤ◌, ◌+ℤ◌}
use k2_market_data_platform.Base.Eq.{int_eq, string_eq, pair_eq}
use k2_market_data_platform.Base.Dict.{Dict, lookup, insert}
use k2_market_data_platform.Base.Sort.{sort, place}
use k2_market_data_platform.Parity.{
  Norm, passed, side_allowance, tolerance, tolerance_for, compare_joined, dedupe_by_id, note_record,
  note_records, same_trade, only_in, mismatches, max_ts_delta, compare_symbol,
}
use k2_market_data_platform.Parity.Agreement.{Agree}
use k2_market_data_platform.Parity.Symbols.{
  group, keys, new_keys, symbols, compare, all_passed, overall,
}
use k2_market_data_platform.Parity.Whole.{overall-Agree}
use k2_market_data_platform.Parity.Window.{
  Poll, nothing, got, discard, assigned, at_end, take_message, on_poll, consume, consume_window,
}
use k2_market_data_platform.Parity.Reading.{accepted, is_reached}
use k2_market_data_platform.Parity.Finished.{consume_window-complete}
use k2_market_data_platform.Parity.Quiet.{nothings, is_waiting}
use k2_market_data_platform.Parity.Ending.{consume_window-ends}

abbrev trade : String → String → ℕ → ℕ → Norm
trade symbol id price at = record {
  canonical_symbol = symbol;
  trade_id = id;
  price = pos price;
  qty = pos 5;
  side = "buy";
  exchange_ts_us = pos at;
}

abbrev older : List Norm
older = trade "ETH-USD" "1" 30 2000 ∷ trade "ETH-USD" "1" 30 2000 ∷ []

abbrev newer : List Norm
newer = trade "ETH-USD" "1" 30 2417 ∷ trade "BTC-USD" "8" 70 5100 ∷ []

overall-Agree_example : Agree (trade "BTC-USD" "7" 60 4000) (trade "BTC-USD" "7" 60 4200)
unfolding overall all_passed compare group keys new_keys symbols sort place lookup insert
    compare_symbol compare_joined dedupe_by_id note_records note_record same_trade only_in
    mismatches max_ts_delta passed side_allowance tolerance tolerance_for ◌-ℤ◌
overall-Agree_example =
    overall-Agree "coinbase" false older (trade "BTC-USD" "8" 70 5000 ∷ []) newer []
      (trade "BTC-USD" "7" 60 4000) (trade "BTC-USD" "7" 60 4200) refl refl refl refl

-- values are prices here
abbrev decode_price : ℕ → Option Norm
decode_price price = some (trade "ETH-USD" "1" price 2000)

abbrev message : ℕ → ℕ → ℕ → Poll ℕ
message partition offset ts_ms =
    got (record { partition = partition; offset = pos offset; ts_ms = pos ts_ms; value = some 30 })

abbrev highs : Dict ℕ ℤ
highs = (0, pos 12) ∷ (1, pos 9) ∷ []

abbrev starts : List (ℕ × ℤ)
starts = (0, pos 10) ∷ (1, pos 3) ∷ []

abbrev polls : List (Poll ℕ)
polls =
    message 1 3 500
    ∷ message 0 10 510
    ∷ nothing
    ∷ message 1 4 2000
    ∷ message 0 11 600
    ∷ nothing
    ∷ []

abbrev three : List Norm
three = trade "ETH-USD" "1" 30 2000 ∷ trade "ETH-USD" "1" 30 2000 ∷ trade "ETH-USD" "1" 30 2000 ∷ []

consume_window-complete_example :
    (pre : List (Poll ℕ)) × (post : List (Poll ℕ)) × (polls ≡ pre ++ post)
    × (three ≡ accepted decode_price highs (pos 1000) pre)
    × (3 ≡ length three)
    × All (λ q. is_reached decode_price highs (pos 1000) q pre ≡ true) (assigned starts highs)
unfolding consume_window assigned lookup consume on_poll take_message at_end discard ◌+ℤ◌
consume_window-complete_example =
    consume_window-complete decode_price highs (pos 1000) starts polls three 3 refl

consume_window-ends_example :
    is_waiting (
      consume_window decode_price highs
        (pos 1000)
        (some starts)
        (polls ++ nothings 15 ++ nothing ∷ []))
    ≡ false
consume_window-ends_example =
    consume_window-ends decode_price highs (pos 1000) (some starts) polls (nothing ∷ [])
