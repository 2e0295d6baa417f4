-- ===== src/Tests/BooksTests.antt =====
-- A Coinbase book that two runs continue, one that begins, and a connection of a single frame.
use k2_market_data_platform.Base.{
  ℕ, ◌≡◌, refl, String, Bool, true, false, none, some, get_or, List, [], ◌∷◌, arith,
}
use k2_market_data_platform.Base.Int.{pos}
use k2_market_data_platform.Base.Eq.{string_eq, pair_eq}
use k2_market_data_platform.Base.Dict.{lookup}
use k2_market_data_platform.Book.{ask}
use k2_market_data_platform.Books.{kraken, coinbase, Row, StateRow, Session, Output, book_row}
use k2_market_data_platform.Books.Flush.{
  second_of, walked, snapshot_row, flush_seconds, next_second, state_row, marked, seconds_to,
}
use k2_market_data_platform.Books.Replay.{
  Env, replay_partition, on_row, open_session, replay_rows, on_frame, finish, taken,
}
use k2_market_data_platform.Books.Seconds.{seconds, Consecutive, span, flush_seconds-exact}
use k2_market_data_platform.Books.Ticks.{ticks, reached_by, ticks-Consecutive}
use k2_market_data_platform.Books.Connection.{Ends, reached}
use k2_market_data_platform.Books.Fresh.{replay_partition-begins, replay_partition-raises}
use k2_market_data_platform.Books.Verdicts.{verdicts, replay_partition-verdicts}

abbrev no_env : Env
no_env = record {
  crc32 = λ text. 0;
  float_text = λ e8 digits. "1.0";
  precisions = ("BTC/USD", (1, 8)) ∷ [];
  states = [];
}

abbrev left_off : StateRow
left_off = record {
  symbol = "BTC-USD";
  conn_id = "a";
  bids = (pos 100, pos 5) ∷ [];
  asks = (pos 101, pos 7) ∷ [];
  seq = pos 9;
  checksum_ok = none;
  last_conn_msg_seq = 4;
  last_recv_ts_ns = 11300000000;
  last_second = 10;
  last_src = record { partition = 0; offset = 3; index = 0 };
}

abbrev coinbase_row : String → ℕ → Bool → Row
coinbase_row conn at is_snapshot = record {
  symbol = "BTC-USD";
  canonical_symbol = "BTC-USD";
  conn_id = conn;
  conn_msg_seq = 5;
  recv_ts_ns = at;
  src_topic = "market.crypto.book";
  src = record { partition = 0; offset = 4; index = 0 };
  payload =
      coinbase is_snapshot (record { side = ask; px = pos 10200; qty = pos 300 } ∷ []) (pos 10);
}

abbrev kraken_row : ℕ → Bool → Row
kraken_row offset is_snapshot = record {
  symbol = "BTC/USD";
  canonical_symbol = "BTC-USD";
  conn_id = "k";
  conn_msg_seq = offset;
  recv_ts_ns = 5000000000;
  src_topic = "market.crypto.book";
  src = record { partition = 1; offset = offset; index = 0 };
  payload = kraken is_snapshot ((pos 9900, pos 500) ∷ []) ((pos 10000, pos 400) ∷ []) 7;
}

abbrev two_runs : List (List Row)
two_runs =
    (coinbase_row "a" 13200000000 false ∷ [])
    ∷ []
    ∷ (coinbase_row "a" 13900000000 false ∷ coinbase_row "a" 15100000000 true ∷ [])
    ∷ []

ticks-Consecutive_example :
    (out : List Output) × (ticks no_env ("BTC-USD", "a") left_off two_runs ≡ some out)
    × Consecutive 11 (seconds out) 15
unfolding reached_by reached
ticks-Consecutive_example =
    ticks-Consecutive no_env ("BTC-USD", "a") left_off two_runs
      ((refl, tt), (tt, ((refl, (refl, tt)), tt)))

replay_partition-begins_example :
    (out : List Output) × (replay_partition no_env
        (coinbase_row "b" 20500000000 true ∷ coinbase_row "b" 22100000000 false ∷ [])
      ≡ some out)
    × Ends 20 out 22
unfolding lookup reached
replay_partition-begins_example =
    replay_partition-begins no_env (coinbase_row "b" 20500000000 true) refl refl
      (coinbase_row "b" 22100000000 false ∷ []) (omega arith) (refl, tt)

replay_partition-raises_example :
    replay_partition no_env
      (coinbase_row "b" 20500000000 true ∷ coinbase_row "c" 21500000000 true ∷ [])
    ≡ none
unfolding lookup
replay_partition-raises_example =
    replay_partition-raises no_env (coinbase_row "b" 20500000000 true) refl refl
      (coinbase_row "c" 21500000000 true) [] refl

abbrev kraken_rows : List Row
kraken_rows = kraken_row 8 false ∷ kraken_row 9 true ∷ []

replay_partition-verdicts_example :
    verdicts (get_or (replay_partition no_env kraken_rows) [])
    ≡ record { partition = 1; offset = 8; index = 0 }
      ∷ record { partition = 1; offset = 9; index = 0 }
      ∷ []
unfolding replay_partition on_row flush_seconds open_session lookup replay_rows on_frame finish
    taken next_second state_row marked walked seconds_to second_of
replay_partition-verdicts_example =
    replay_partition-verdicts no_env kraken_rows (get_or (replay_partition no_env kraken_rows) [])
      (tt, (tt, tt)) refl

-- the session that `left_off` is resumed as
abbrev resumed_session : Session
resumed_session = open_session (some left_off) (coinbase_row "a" 13200000000 false)

flush_seconds-exact_example :
    flush_seconds resumed_session 13200000000
    ≡ some (
      book_row (snapshot_row resumed_session 11000000000)
          ∷ book_row (snapshot_row resumed_session 12000000000)
          ∷ [],
      record resumed_session {
        st = record (resumed_session.st) { last_second_ns = some 12000000000 };
      },
    )
unfolding open_session next_second span
flush_seconds-exact_example =
    flush_seconds-exact resumed_session 11 13200000000 (refl, refl) (omega arith)
