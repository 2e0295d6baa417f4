-- ===== src/Books/Flush.antt =====
-- `snapshot_row`, `state_row` and `flush_seconds`: the rows that a session emits.
use k2_market_data_platform.Base.{
  ℕ, zero, suc, ◌+◌, ◌-◌, ◌*◌, ◌/◌, max, Option, none, some, List, [], ◌∷◌, map, length, get_or,
  if◌then◌else◌, ltb, leb,
}
use k2_market_data_platform.Base.Eq.{string_eq, pair_eq, int_eq}
use k2_market_data_platform.Book.Checksum.{top_bids, top_asks}
use k2_market_data_platform.Books.{
  top_levels, ns, StateRow, BookRow, Running, Session, Output, book_row,
}

unfoldable pub snapshot_row : Session → ℕ → BookRow
snapshot_row s second_ns = record {
  symbol = s.st.symbol;
  canonical_symbol = s.st.canonical_symbol;
  conn_id = s.st.conn_id;
  second = second_ns / ns;
  depth = max (length (top_bids s.book top_levels)) (length (top_asks s.book top_levels));
  seq = s.st.seq;
  checksum_ok = s.st.checksum_ok;
  bids = top_bids s.book top_levels;
  asks = top_asks s.book top_levels;
  recv_ts_ns = s.st.recv_ts_ns;
  conn_msg_seq = s.st.conn_msg_seq;
  src_topic = s.st.src_topic;
  src = s.st.src;
}

abbrev pub row_at : Session → ℕ → StateRow
row_at s last = record {
  symbol = s.st.symbol;
  conn_id = s.st.conn_id;
  bids = top_bids s.book 1000000;
  asks = top_asks s.book 1000000;
  seq = s.st.seq;
  checksum_ok = s.st.checksum_ok;
  last_conn_msg_seq = s.st.conn_msg_seq;
  last_recv_ts_ns = s.st.recv_ts_ns;
  last_second = last / ns;
  last_src = s.st.src;
}

-- `None // NS` is a TypeError, which ends the generator
abbrev pub row_from : Session → Option ℕ → Option StateRow
row_from s none = none
row_from s (some last) = some (row_at s last)

unfoldable pub state_row : Session → Option StateRow
state_row s = row_from s s.st.last_second_ns

-- `while sec < boundary`: the seconds that are emitted, and the one that the loop stops at
unfoldable pub seconds_to : ℕ → ℕ → ℕ → List ℕ × ℕ
seconds_to zero sec boundary = ([], sec)
seconds_to (suc fuel) sec boundary =
    let rest = seconds_to fuel (sec + ns) boundary in
    if ltb sec boundary then (sec ∷ rest.0, rest.1) else ([], sec)

-- the start of the second that holds an instant
unfoldable pub second_of : ℕ → ℕ
second_of upto = upto / ns * ns

-- the first second that is not emitted yet; a live session without one is a TypeError
unfoldable pub next_second : Running → Option ℕ
next_second st = elim st.last_second_ns [
  | some last ↦ some (last + ns)
  | none ↦ elim st.first_ns [ none ↦ none | some first ↦ some (second_of first) ]
]

-- The loop of the flush. Its fuel stands for no line of the code: it is a round for each second from
-- 1970 up to the boundary, and no second that is due is earlier.
unfoldable pub walked : ℕ → ℕ → List ℕ × ℕ
walked upto sec = seconds_to (upto / ns) sec (second_of upto)

-- `max(last or 0, sec - NS) if sec - NS >= 0 else last`
unfoldable pub marked : Running → ℕ → Running
marked st sec =
    if leb ns sec
    then record st { last_second_ns = some (max (get_or st.last_second_ns 0) (sec - ns)) }
    else st

-- a live session's flush, from the second that is due
abbrev pub flush_from : Session → ℕ → Option ℕ → Option (List Output × Session)
flush_from s upto none = none
flush_from s upto (some sec) = some (
  map (λ second. book_row (snapshot_row s second)) (walked upto sec).0,
  record s { st = marked s.st (walked upto sec).1 },
)

unfoldable pub flush_seconds : Session → ℕ → Option (List Output × Session)
flush_seconds s upto = if s.st.live then flush_from s upto (next_second s.st) else some ([], s)
