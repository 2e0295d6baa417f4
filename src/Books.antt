-- ===== src/Books.antt =====
-- docker/lake/books.py: `replay_partition`, the replay of one partition of typed frames into rows of
-- a second, verdicts on Kraken's checksums, and the states that the next run starts from. Times are
-- counted in nanoseconds, seconds in whole ones; a silver decimal is a whole number of 1e-10 units.
-- A frame's payload says which venue it is of; the exchange and the run's own time, the same in every
-- row of a run, are left out of the rows.
pub mod Flush
pub mod Replay
pub mod Seconds
pub mod Connection
pub mod Ticks
pub mod Fresh
pub mod Verdicts
use k2_market_data_platform.Base.{
  ℕ, zero, suc, ◌+◌, ◌-◌, ◌*◌, ◌/◌, max, String, Bool, true, false, ◌&&◌, not, Option, none, some,
  List, [], ◌∷◌, ◌++◌, map, length, get_or, if◌then◌else◌, ltb, leb, ◌==◌,
}
use k2_market_data_platform.Base.Int.{ℤ, pos, negsuc}
use k2_market_data_platform.Base.Eq.{◌=?◌, string_eq, pair_eq, int_eq}
use k2_market_data_platform.Base.Dict.{Dict, lookup, insert}
use k2_market_data_platform.Book.{
  Book, Levels, Side, bid, ask, Frame, clear, apply, kraken_apply, empty_book,
}
use k2_market_data_platform.Book.Checksum.{checksum_levels, top_bids, top_asks, kraken_checksum}

abbrev pub top_levels : ℕ
top_levels = 20

abbrev pub kraken_depth : ℕ
kraken_depth = 25

abbrev pub ns : ℕ
ns = 1000000000

-- `(symbol, conn_id)`
abbrev pub Key : Type 0
Key = String × String

pub record Update : Type 0 where
  pub side : Side
  pub px : ℤ
  pub qty : ℤ

-- what the columns of the two venues hold
pub data Payload : Type 0 where
  kraken : (is_snapshot : Bool) → (bids asks : List (ℤ × ℤ)) → (checksum : ℕ) → Payload
  coinbase : (is_snapshot : Bool) → List Update → (sequence_num : ℤ) → Payload

-- where a frame stands in Kafka
pub record Source : Type 0 where
  pub partition : ℕ
  pub offset : ℕ
  pub index : ℕ

pub record Row : Type 0 where
  pub symbol : String
  pub canonical_symbol : String
  pub conn_id : String
  pub conn_msg_seq : ℕ
  pub recv_ts_ns : ℕ
  pub src_topic : String
  pub src : Source
  pub payload : Payload

-- a row of gold.book_state; every list of levels is best first
pub record StateRow : Type 0 where
  pub symbol : String
  pub conn_id : String
  pub bids : List (ℤ × ℤ)
  pub asks : List (ℤ × ℤ)
  pub seq : ℤ
  pub checksum_ok : Option Bool
  pub last_conn_msg_seq : ℕ
  pub last_recv_ts_ns : ℕ
  pub last_second : ℕ
  pub last_src : Source

-- a row of gold.books
pub record BookRow : Type 0 where
  pub symbol : String
  pub canonical_symbol : String
  pub conn_id : String
  pub second : ℕ
  pub depth : ℕ
  pub seq : ℤ
  pub checksum_ok : Option Bool
  pub bids : List (ℤ × ℤ)
  pub asks : List (ℤ × ℤ)
  pub recv_ts_ns : ℕ
  pub conn_msg_seq : ℕ
  pub src_topic : String
  pub src : Source

-- the running state `st` of the current connection
pub record Running : Type 0 where
  pub symbol : String
  pub canonical_symbol : String
  pub conn_id : String
  pub live : Bool
  pub seq : ℤ
  pub checksum_ok : Option Bool
  pub recv_ts_ns : ℕ
  pub conn_msg_seq : ℕ
  pub src_topic : String
  pub src : Source
  pub last_second_ns : Option ℕ
  pub first_ns : Option ℕ

pub record Session : Type 0 where
  pub book : Book
  pub st : Running

pub data Output : Type 0 where
  verdict : Source → Option Bool → Output
  book_row : BookRow → Output
  state : StateRow → Output
