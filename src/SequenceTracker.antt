-- ===== src/SequenceTracker.antt =====
-- legacy/v1/src/k2/ingestion/sequence_tracker.py: `SequenceTracker` and `DeduplicationCache`. A
-- timestamp is a count of clock units, and a clock reading is an argument.
pub mod Watermark
pub mod Deduplication
use k2_market_data_platform.Base.{
  ℕ, suc, ◌+◌, String, Bool, true, false, ◌&&◌, Option, none, some, List, [], ◌∷◌, if◌then◌else◌,
}
use k2_market_data_platform.Base.Int.{ℤ, pos, ◌+ℤ◌, ◌-ℤ◌, ltb_ℤ, leb_ℤ, ◌==ℤ◌}
use k2_market_data_platform.Base.Eq.{string_eq, pair_eq}
use k2_market_data_platform.Base.Dict.{Dict, lookup, insert, erase}

pub record SequenceState : Type 0 where
  pub last_sequence : ℤ
  pub last_timestamp : ℤ
  pub total_messages : ℕ
  pub gap_count : ℕ
  pub out_of_order_count : ℕ

pub data SequenceEvent : Type 0 where
  ok : SequenceEvent
  small_gap : SequenceEvent
  large_gap : SequenceEvent
  session_reset : SequenceEvent
  out_of_order : SequenceEvent

pub record Thresholds : Type 0 where
  pub gap_threshold : ℤ
  pub reset_window : ℤ

-- the arguments of `check_sequence`
pub record Message : Type 0 where
  pub exchange : String
  pub symbol : String
  pub sequence : ℤ
  pub timestamp : ℤ

abbrev pub Tracker : Type 0
Tracker = Dict (String × String) SequenceState

abbrev pub key_of : Message → String × String
key_of m = (m.exchange, m.symbol)

-- `new < last * 0.5`, doubled, and the time since the last message against the window
unfoldable pub is_session_reset : Thresholds → SequenceState → Message → Bool
is_session_reset s st m =
    ltb_ℤ (m.sequence +ℤ m.sequence) st.last_sequence
    && ltb_ℤ s.reset_window (m.timestamp -ℤ st.last_timestamp)

-- the three assignments that every message but one out of order makes
abbrev pub advanced : SequenceState → Message → SequenceState
advanced st m = record st {
  last_sequence = m.sequence;
  last_timestamp = m.timestamp;
  total_messages = suc st.total_messages;
}

unfoldable pub first_state : Message → SequenceState
first_state m = record {
  last_sequence = m.sequence;
  last_timestamp = m.timestamp;
  total_messages = 1;
  gap_count = 0;
  out_of_order_count = 0;
}

-- the branch of a sequence that jumped forward
unfoldable pub jumped : Thresholds → SequenceState → Message → SequenceEvent × SequenceState
jumped s st m =
    let gap_size = m.sequence -ℤ (st.last_sequence +ℤ pos 1) in
    if is_session_reset s st m then (session_reset, advanced st m) else (
      (if ltb_ℤ s.gap_threshold gap_size then large_gap else small_gap),
      record (advanced st m) { gap_count = suc st.gap_count },
    )

unfoldable pub judge : Thresholds → SequenceState → Message → SequenceEvent × SequenceState
judge s st m =
    let expected_sequence = st.last_sequence +ℤ pos 1 in
    if m.sequence ==ℤ expected_sequence
    then (ok, advanced st m)
    else if ltb_ℤ expected_sequence m.sequence
    then jumped s st m
    else if leb_ℤ m.sequence st.last_sequence
    then (out_of_order, record st { out_of_order_count = suc st.out_of_order_count })
    else (ok, st)

unfoldable pub classify :
    Thresholds → Option SequenceState → Message → SequenceEvent × SequenceState
classify s none m = (ok, first_state m)
classify s (some st) m = judge s st m

-- The state of a symbol is one object, which the tracker holds and `check_sequence` changes.
unfoldable pub check_sequence : Thresholds → Tracker → Message → SequenceEvent × Tracker
check_sequence s t m = let r = classify s (lookup (key_of m) t) m in (r.0, insert (key_of m) r.1 t)

unfoldable pub get_stats : Tracker → String → String → Option SequenceState
get_stats t exchange symbol = lookup (exchange, symbol) t

unfoldable pub reset : Tracker → String → String → Tracker
reset t exchange symbol = erase (exchange, symbol) t

-- a consumer's loop
unfoldable pub track : Thresholds → Tracker → List Message → List SequenceEvent × Tracker
track s t [] = ([], t)
track s t (m ∷ messages) =
    let r = check_sequence s t m in let rest = track s r.1 messages in (r.0 ∷ rest.0, rest.1)
