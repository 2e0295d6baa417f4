-- ===== src/Tests/BookTests.antt =====
-- A book of depth 2 through a snapshot and an update.
use k2_market_data_platform.Base.{◌≤◌, true, false, List, [], ◌∷◌, arith}
use k2_market_data_platform.Base.Int.{ℤ, pos}
use k2_market_data_platform.Base.Eq.{int_eq}
use k2_market_data_platform.Book.{Book, Frame, depth, kraken_replay, empty_book}
use k2_market_data_platform.Book.Depth.{IsBook, kraken_replay-depth}

abbrev quotes : List (ℤ × ℤ)
quotes =
    (pos 100, pos 5) ∷ (pos 101, pos 7) ∷ (pos 99, pos 2) ∷ (pos 100, pos 0) ∷ (pos 98, pos 4) ∷ []

abbrev frames : List Frame
frames =
    record { is_snapshot = true; bids = quotes; asks = (pos 102, pos 1) ∷ [] }
    ∷ record { is_snapshot = false; bids = (pos 97, pos 3) ∷ []; asks = (pos 102, pos 0) ∷ [] }
    ∷ []

kraken_replay-depth_example :
    (depth (kraken_replay 2 empty_book frames) ≤ 2) × IsBook (kraken_replay 2 empty_book frames)
unfolding depth
kraken_replay-depth_example = kraken_replay-depth 2 empty_book frames (tt, tt) (omega arith)

abbrev wide : Book
wide = record {
  bids = (pos 101, pos 7) ∷ (pos 98, pos 4) ∷ (pos 99, pos 2) ∷ [];
  asks = (pos 104, pos 7) ∷ (pos 103, pos 4) ∷ (pos 105, pos 2) ∷ [];
}
