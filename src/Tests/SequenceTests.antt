-- ===== src/Tests/SequenceTests.antt =====
-- Messages of two symbols, with a jump, a late message and a fall; and ids within a window.
use k2_market_data_platform.Base.{ℕ, ◌≡◌, refl, String, true, false, some, List, [], ◌∷◌, arith}
use k2_market_data_platform.Base.Int.{pos, max_ℤ}
use k2_market_data_platform.Base.Eq.{string_eq, pair_eq}
use k2_market_data_platform.Base.Dict.{lookup}
use k2_market_data_platform.SequenceTracker.{Thresholds, Message, track}
use k2_market_data_platform.SequenceTracker.Watermark.{highest, track-watermark}
use k2_market_data_platform.SequenceTracker.Deduplication.{
  DeduplicationCache, answers, answers-repeats,
}

abbrev thresholds : Thresholds
thresholds = record { gap_threshold = pos 10; reset_window = pos 3600 }

abbrev message : String → ℕ → ℕ → Message
message symbol sequence now = record {
  exchange = "ASX";
  symbol = symbol;
  sequence = pos sequence;
  timestamp = pos now;
}

abbrev messages : List Message
messages =
    message "BHP" 1000 1
    ∷ message "CBA" 7 1
    ∷ message "BHP" 1005 2
    ∷ message "BHP" 1002 3
    ∷ message "BHP" 1 90000
    ∷ []

track-watermark_example :
    highest (lookup ("ASX", "BHP") (track thresholds [] messages).1) ≡ some (pos 1005)
unfolding lookup max_ℤ
track-watermark_example =
    track-watermark ("ASX", "BHP") thresholds [] messages tt
      (omega arith, (omega arith, (omega arith, (omega arith, (omega arith, tt)))))

abbrev cache : DeduplicationCache
cache = record { cache = []; window = 1000000000; last_cleanup = 0 }

answers-repeats_example :
    answers cache (("a", 5) ∷ ("b", 700000000) ∷ ("a", 900000000) ∷ []) ≡ false ∷ false ∷ true ∷ []
unfolding lookup
answers-repeats_example =
    answers-repeats 5 1000000000 cache [] (("a", 5) ∷ ("b", 700000000) ∷ ("a", 900000000) ∷ []) refl
      tt (λ id. refl)
      ((omega arith, omega arith), ((omega arith, omega arith), ((omega arith, omega arith), tt)))

abbrev old : DeduplicationCache
old = record { cache = ("a", 5) ∷ []; window = 1000; last_cleanup = 500000000 }
