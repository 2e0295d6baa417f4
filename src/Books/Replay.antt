-- ===== src/Books/Replay.antt =====
-- The loop over the rows of a partition.
use k2_market_data_platform.Base.{
  ℕ, suc, ◌-◌, ◌*◌, ◌/◌, String, Bool, true, false, ◌&&◌, not, Option, none, some, List, [], ◌∷◌,
  ◌++◌, if◌then◌else◌, ltb, ◌==◌,
}
use k2_market_data_platform.Base.Int.{ℤ, pos, negsuc}
use k2_market_data_platform.Base.Eq.{◌=?◌, string_eq, pair_eq, int_eq}
use k2_market_data_platform.Base.Dict.{Dict, lookup, insert}
use k2_market_data_platform.Book.{Book, Levels, clear, apply, kraken_apply, empty_book}
use k2_market_data_platform.Book.Checksum.{checksum_levels, top_bids, top_asks, kraken_checksum}
use k2_market_data_platform.Books.{
  kraken_depth, ns, Key, Update, Payload, kraken, coinbase, Source, Row, StateRow, Session, Output,
  verdict, state,
}
use k2_market_data_platform.Books.Flush.{state_row, flush_seconds}

-- `int(x * B.SCALE)` of a decimal with ten places: towards zero
unfoldable pub to_e8 : ℤ → ℤ
to_e8 (pos n) = pos (n / 100)
to_e8 (negsuc n) = if ltb n 99 then pos 0 else negsuc (suc n / 100 - 1)

unfoldable pub levels_e8 : List (ℤ × ℤ) → List (ℤ × ℤ)
levels_e8 [] = []
levels_e8 ((px, qty) ∷ pairs) = (to_e8 px, to_e8 qty) ∷ levels_e8 pairs

-- `book.bids[px] = qty`, in turn
unfoldable pub put_levels : Levels → List (ℤ × ℤ) → Levels
put_levels out [] = out
put_levels out ((px, qty) ∷ levels) = put_levels (insert px qty out) levels

unfoldable pub book_of : StateRow → Book
book_of r = record { bids = put_levels [] r.bids; asks = put_levels [] r.asks }

abbrev pub no_source : Source
no_source = record { partition = 0; offset = 0; index = 0 }

-- a connection's first row of the partition
unfoldable pub open_session : Option StateRow → Row → Session
open_session none r = record {
  book = empty_book;
  st = record {
    symbol = r.symbol;
    canonical_symbol = r.canonical_symbol;
    conn_id = r.conn_id;
    live = false;
    seq = pos 0;
    checksum_ok = none;
    recv_ts_ns = 0;
    conn_msg_seq = 0;
    src_topic = r.src_topic;
    src = no_source;
    last_second_ns = none;
    first_ns = none;
  };
}
open_session (some prev) r = record {
  book = book_of prev;
  st = record {
    symbol = r.symbol;
    canonical_symbol = r.canonical_symbol;
    conn_id = r.conn_id;
    live = true;
    seq = prev.seq;
    checksum_ok = prev.checksum_ok;
    recv_ts_ns = prev.last_recv_ts_ns;
    conn_msg_seq = prev.last_conn_msg_seq;
    src_topic = r.src_topic;
    src = prev.last_src;
    last_second_ns = some (prev.last_second * ns);
    first_ns = none;
  };
}

-- what follows a frame that is applied
unfoldable pub taken : Session → Row → Session
taken s r = record s {
  st = record (s.st) {
    live = true;
    first_ns = if s.st.live then s.st.first_ns else some r.recv_ts_ns;
    recv_ts_ns = r.recv_ts_ns;
    conn_msg_seq = r.conn_msg_seq;
    src = r.src;
  };
}

unfoldable pub apply_updates : Book → List Update → Book
apply_updates book [] = book
apply_updates book (u ∷ updates) =
    apply_updates (apply book u.side (to_e8 u.px) (to_e8 u.qty)) updates

-- the outputs of two steps, where neither raises
abbrev pub then_out : Option (List Output) → Option (List Output) → Option (List Output)
then_out none later = none
then_out (some out) none = none
then_out (some out) (some rest) = some (out ++ rest)

abbrev pub state_out : Option StateRow → Option (List Output)
state_out none = none
state_out (some row) = some (state row ∷ [])

-- the state of a connection that another one follows: no seconds are flushed here
unfoldable pub leave : Session → Option (List Output)
leave s = if s.st.live then state_out (state_row s) else some []

abbrev pub closed : Option (List Output × Session) → Option (List Output)
closed none = none
closed (some (rows, flushed)) = then_out (some rows) (state_out (state_row flushed))

-- the end of the rows
unfoldable pub finish : Session → Option (List Output)
finish s = if s.st.live then closed (flush_seconds s s.st.recv_ts_ns) else some []

abbrev pub key_of : Row → Key
key_of r = (r.symbol, r.conn_id)

abbrev pub resumed :
    (Session → Option (List Output)) → Option (List Output × Session) → Option (List Output)
resumed rest none = none
resumed rest (some (out, next)) = then_out (some out) (rest next)

-- What a run is given: zlib's CRC32, the text of a float, the pairs' precisions and the states.
pub record Env : Type 0 where
  pub crc32 : String → ℕ
  pub float_text : ℤ → ℕ → String
  pub precisions : Dict String (ℕ × ℕ)
  pub states : Dict Key StateRow

module _ (env : Env) where
  -- the venue's checksum against the book's; none where the pair's precision is not known
  unfoldable pub checked : String → Book → ℕ → Option Bool
  checked symbol book checksum = elim (lookup symbol env.precisions) [
    | none ↦ none
    | some prec ↦ some (
        kraken_checksum env.float_text env.crc32 (top_asks book checksum_levels)
          (top_bids book checksum_levels) prec.0 prec.1
        == checksum)
  ]

  unfoldable pub kraken_book : Session → Bool → List (ℤ × ℤ) → List (ℤ × ℤ) → Book
  kraken_book s is_snapshot bids asks =
      kraken_apply kraken_depth s.book
        (record { is_snapshot = is_snapshot; bids = levels_e8 bids; asks = levels_e8 asks })

  unfoldable pub coinbase_book : Session → Bool → List Update → Book
  coinbase_book s is_snapshot updates =
      apply_updates (if is_snapshot then clear s.book else s.book) updates

  -- A frame after the flush. Until a snapshot comes, a connection is not live and its frames are
  -- passed over.
  unfoldable pub on_frame : Session → Row → Payload → List Output × Session
  on_frame s r (kraken is_snapshot bids asks checksum) =
      if not s.st.live && not is_snapshot then (verdict r.src none ∷ [], s) else (
        verdict r.src (checked r.symbol (kraken_book s is_snapshot bids asks) checksum) ∷ [],
        taken
            (record {
              book = kraken_book s is_snapshot bids asks;
              st = record (s.st) {
                checksum_ok = checked r.symbol (kraken_book s is_snapshot bids asks) checksum;
              };
            })
            r,
      )
  on_frame s r (coinbase is_snapshot updates sequence_num) =
      if not s.st.live && not is_snapshot then ([], s) else (
        [],
        taken
            (record {
              book = coinbase_book s is_snapshot updates;
              st = record (s.st) { seq = sequence_num };
            })
            r,
      )

  -- a row's outputs, after its flush
  abbrev pub framed : Row → Option (List Output × Session) → Option (List Output × Session)
  framed r none = none
  framed r (some (rows, flushed)) =
      some (rows ++ (on_frame flushed r r.payload).0, (on_frame flushed r r.payload).1)

  -- one row of the current connection
  unfoldable pub on_row : Session → Row → Option (List Output × Session)
  on_row s r = framed r (flush_seconds s r.recv_ts_ns)

  -- a connection's first row of the partition
  abbrev pub first_row : Row → Option (List Output × Session)
  first_row r = on_row (open_session (lookup (key_of r) env.states) r) r

  -- the rest of the rows, within a connection
  unfoldable pub replay_rows : Key → Session → List Row → Option (List Output)
  replay_rows key s [] = finish s
  replay_rows key s (r ∷ rows) = elim (key_of r =? key) [
    | true ↦ resumed (λ next. replay_rows key next rows) (on_row s r)
    | false ↦ then_out (leave s) (resumed (λ next. replay_rows (key_of r) next rows) (first_row r))
  ]

  -- the whole partition; none is the TypeError
  unfoldable pub replay_partition : List Row → Option (List Output)
  replay_partition [] = some []
  replay_partition (r ∷ rows) = resumed (λ next. replay_rows (key_of r) next rows) (first_row r)
