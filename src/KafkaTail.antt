-- ===== src/KafkaTail.antt =====
-- legacy/v1/src/k2/query/kafka_tail.py: KafkaTail, the buffer of recent messages by symbol, with the
-- loop that fills it and the query. A time is a count of clock units, in zones that compare, and a
-- clock reading is part of a poll. The parsers of a message and of a time are parameters.
pub mod Answers
pub mod Window
pub mod Accounts
pub mod Stale
use k2_market_data_platform.Base.{
  ℕ, zero, suc, ◌+◌, String, Bool, true, false, not, ◌&&◌, Option, none, some, List, [], ◌∷◌, ◌++◌,
  length, drop, get_or, if◌then◌else◌, ltb, leb,
}
use k2_market_data_platform.Base.Eq.{given, ◌=?◌, string_eq}
use k2_market_data_platform.Base.Dict.{Dict, lookup, insert}

pub record TailMessage (D : Type 0) : Type 0 where
  pub symbol : String
  pub exchange : String
  pub timestamp : ℕ
  pub message_id : String
  pub message_data : D

-- what the constructor sets
pub record TailSettings : Type 0 where
  pub buffer_window : ℕ
  pub max_messages_per_symbol : ℕ
  pub trim_interval : ℕ

pub record Tail (D : Type 0) : Type 0 where
  pub buffer : Dict String (List (TailMessage D))
  pub messages_received : ℕ
  pub messages_trimmed : ℕ
  pub buffer_size : ℕ
  pub symbols_tracked : ℕ
  pub last_trim_time : ℕ

-- the fields that are read of a parsed message
pub record Payload (D : Type 0) : Type 0 where
  pub symbol : Option String
  pub exchange : Option String
  pub message_id : Option String
  pub timestamp_str : Option String
  pub message_data : D

-- a message of Kafka: its value, if there is one, and its own time
pub record Incoming (V : Type 0) : Type 0 where
  pub value : Option V
  pub sent_at : ℕ

pub data TailPoll (V : Type 0) : Type 0 where
  no_message : ℕ → ℕ → TailPoll V
  kafka_error : TailPoll V
  incoming : Incoming V → TailPoll V

module _ {D : Type 0} where
  abbrev pub symbol_messages : String → Tail D → List (TailMessage D)
  symbol_messages symbol t = get_or (lookup symbol t.buffer) []

  abbrev pub put_unless_empty :
      String
      → List (TailMessage D)
      → Dict String (List (TailMessage D))
      → Dict String (List (TailMessage D))
  put_unless_empty symbol [] rest = rest
  put_unless_empty symbol (m ∷ messages) rest = (symbol, m ∷ messages) ∷ rest

  abbrev pub size_of : Dict String (List (TailMessage D)) → ℕ
  size_of [] = 0
  size_of ((symbol, messages) ∷ entries) = length messages + size_of entries

  abbrev pub is_asked : String → ℕ → ℕ → TailMessage D → Bool
  is_asked exchange start_time end_time m =
      m.exchange =? exchange && (leb start_time m.timestamp && leb m.timestamp end_time)

  unfoldable pub select : String → ℕ → ℕ → List (TailMessage D) → List D
  select exchange start_time end_time [] = []
  select exchange start_time end_time (m ∷ messages) =
      let rest = select exchange start_time end_time messages in
      if is_asked exchange start_time end_time m then m.message_data ∷ rest else rest

  unfoldable pub query : String → String → ℕ → ℕ → Tail D → List D
  query symbol exchange start_time end_time t =
      select exchange start_time end_time (symbol_messages symbol t)

  unfoldable pub clear : Tail D → Tail D
  clear t = record {
    buffer = [];
    messages_received = 0;
    messages_trimmed = 0;
    buffer_size = 0;
    symbols_tracked = 0;
    last_trim_time = t.last_trim_time;
  }

  -- the state of the constructor, at its clock reading
  abbrev pub fresh_tail : ℕ → Tail D
  fresh_tail now = record {
    buffer = [];
    messages_received = 0;
    messages_trimmed = 0;
    buffer_size = 0;
    symbols_tracked = 0;
    last_trim_time = now;
  }

module _ {D V : Type 0} (parse : V → Option (Payload D)) (fromisoformat : String → Option ℕ) where
  -- the time of the payload, or the message's own; none where the text is not a time
  abbrev pub timestamp_of : Option String → ℕ → Option ℕ
  timestamp_of none sent_at = some sent_at
  timestamp_of (some timestamp_str) sent_at = fromisoformat timestamp_str

  abbrev pub of_time : String → String → String → D → Option ℕ → Option (TailMessage D)
  of_time symbol exchange message_id message_data none = none
  of_time symbol exchange message_id message_data (some timestamp) = some (record {
    symbol = symbol;
    exchange = exchange;
    timestamp = timestamp;
    message_id = message_id;
    message_data = message_data;
  })

  abbrev pub of_fields :
      Option String → Option String → Option String → Payload D → ℕ → Option (TailMessage D)
  of_fields (some symbol) (some exchange) (some message_id) p sent_at =
      of_time symbol exchange message_id p.message_data
        (timestamp_of (given p.timestamp_str) sent_at)
  of_fields none exchange message_id p sent_at = none
  of_fields (some symbol) none message_id p sent_at = none
  of_fields (some symbol) (some exchange) none p sent_at = none

  abbrev pub of_payload : Option (Payload D) → ℕ → Option (TailMessage D)
  of_payload none sent_at = none
  of_payload (some p) sent_at =
      of_fields (given p.symbol) (given p.exchange) (given p.message_id) p sent_at

  abbrev pub parsed : Option V → Option (Payload D)
  parsed none = none
  parsed (some v) = parse v

  -- none for a message without a value, that does not parse, or that lacks a field
  unfoldable pub tail_message : Incoming V → Option (TailMessage D)
  tail_message m = of_payload (parsed m.value) m.sent_at

module _ {D : Type 0} (s : TailSettings) where
  -- after the append: `pop(0)` of a list that is too long
  unfoldable pub enforce_limit : List (TailMessage D) → Tail D → String → Tail D
  enforce_limit messages t symbol =
      if ltb s.max_messages_per_symbol (length messages)
      then record t {
        buffer = insert symbol (drop 1 messages) t.buffer;
        messages_trimmed = suc t.messages_trimmed;
      }
      else record t { buffer = insert symbol messages t.buffer }

  unfoldable pub add_message : TailMessage D → Tail D → Tail D
  add_message m t =
      enforce_limit (symbol_messages m.symbol t ++ m ∷ [])
        (record t { messages_received = suc t.messages_received }) m.symbol

  abbrev pub add_if : Option (TailMessage D) → Tail D → Tail D
  add_if none t = t
  add_if (some m) t = add_message m t

  unfoldable pub process_message :
      {V : Type 0} → (V → Option (Payload D)) → (String → Option ℕ) → Incoming V → Tail D → Tail D
  process_message parse fromisoformat m t = add_if (tail_message parse fromisoformat m) t

  -- `msg.timestamp >= cutoff_time`, with the window on the other side
  abbrev pub is_recent : ℕ → TailMessage D → Bool
  is_recent now m = leb now (m.timestamp + s.buffer_window)

  -- the position of the first recent message
  unfoldable pub first_recent : ℕ → List (TailMessage D) → Option ℕ
  first_recent now [] = none
  first_recent now (m ∷ messages) =
      let rest = first_recent now messages in
      if is_recent now m then some 0 else elim rest [ none ↦ none | some i ↦ some (suc i) ]

  -- where the loop finds none, its start value stays
  abbrev pub keep_from : ℕ → List (TailMessage D) → ℕ
  keep_from now messages = get_or (first_recent now messages) 0

  -- the buffer and the number of messages that are trimmed
  unfoldable pub trim_entries :
      ℕ → Dict String (List (TailMessage D)) → Dict String (List (TailMessage D)) × ℕ
  trim_entries now [] = ([], 0)
  trim_entries now ((symbol, messages) ∷ entries) =
      let rest = trim_entries now entries in
      (
        put_unless_empty symbol (drop (keep_from now messages) messages) rest.0,
        keep_from now messages + rest.1,
      )

  unfoldable pub trim_old_messages : ℕ → Tail D → Tail D
  trim_old_messages now t =
      let trimmed = trim_entries now t.buffer in
      record t {
        buffer = trimmed.0;
        messages_trimmed = t.messages_trimmed + trimmed.1;
        buffer_size = size_of trimmed.0;
        symbols_tracked = length trimmed.0;
      }

  -- the clock of the interval, and the one of the window
  unfoldable pub maybe_trim : ℕ → ℕ → Tail D → Tail D
  maybe_trim checked_at now t =
      if ltb checked_at (t.last_trim_time + s.trim_interval)
      then t
      else record (trim_old_messages now t) { last_trim_time = checked_at }

  module _ {V : Type 0} (parse : V → Option (Payload D)) (fromisoformat : String → Option ℕ) where
    -- one turn of `_consume_loop`; both kinds of error change nothing
    unfoldable pub on_tail_poll : Tail D → TailPoll V → Tail D
    on_tail_poll t (no_message checked_at now) = maybe_trim checked_at now t
    on_tail_poll t kafka_error = t
    on_tail_poll t (incoming m) = process_message parse fromisoformat m t

    unfoldable pub consume_loop : Tail D → List (TailPoll V) → Tail D
    consume_loop t [] = t
    consume_loop t (p ∷ polls) = consume_loop (on_tail_poll t p) polls
