-- ===== src/KafkaTail/Accounts.antt =====
-- The limit of each symbol, and where every message that was received is.
use k2_market_data_platform.Base.{
  ℕ, zero, suc, ◌+◌, ◌≤◌, ◌≡◌, refl, ap, String, false, Bool-cases, inl, inr, none, some, Option,
  List, [], ◌∷◌, ◌++◌, length, length-append, drop, get_or, ltb, ltb→lt, if◌then◌else◌, arith,
}
use k2_market_data_platform.Base.Eq.{◌=?◌, string_eq}
use k2_market_data_platform.Base.Dict.{Dict, IsDict, lookup, insert, lookup-insert, insert-IsDict}
use k2_market_data_platform.KafkaTail.{
  TailMessage, TailSettings, Tail, Payload, TailPoll, no_message, kafka_error, incoming,
  symbol_messages, put_unless_empty, size_of, enforce_limit, add_message, add_if, process_message,
  first_recent, keep_from, trim_entries, trim_old_messages, maybe_trim, on_tail_poll, consume_loop,
}

module _ {D : Type 0} where
  -- The symbols are distinct, none has more messages than the limit, and every message that was
  -- received is in the buffer or was trimmed.
  pub record Accounted (limit : ℕ) (t : Tail D) : Type 0 where
    pub distinct : IsDict t.buffer
    pub bounded : (symbol : String) → length (symbol_messages symbol t) ≤ limit
    pub balance : size_of t.buffer + t.messages_trimmed ≡ t.messages_received

  size_of-insert :
      (symbol : String) (messages : List (TailMessage D)) (d : Dict String (List (TailMessage D)))
      → size_of (insert symbol messages d) + length (get_or (lookup symbol d) [])
        ≡ size_of d + length messages
  unfolding insert lookup
  size_of-insert symbol messages [] = omega arith
  size_of-insert symbol messages ((j, old) ∷ d) = ground (arith, size_of-insert symbol messages d)

  insert-bounded :
      (limit : ℕ) (symbol : String) (messages : List (TailMessage D))
      (d : Dict String (List (TailMessage D)))
      → length messages ≤ limit
      → ((k : String) → length (get_or (lookup k d) []) ≤ limit)
      → (k : String) → length (get_or (lookup k (insert symbol messages d)) []) ≤ limit
  insert-bounded limit symbol messages d few h k =
      ground (arith, few, h k, lookup-insert symbol k messages d)

  length-put :
      (symbol : String) (messages : List (TailMessage D)) (d : Dict String (List (TailMessage D)))
      → size_of (put_unless_empty symbol messages d) ≡ length messages + size_of d
  length-put symbol [] d = omega arith
  length-put symbol (m ∷ messages) d = refl

  lookup-put :
      (k symbol : String) (messages : List (TailMessage D)) (d : Dict String (List (TailMessage D)))
      → lookup symbol d ≡ none
      → get_or (lookup k (put_unless_empty symbol messages d)) []
        ≡ (if symbol =? k then messages else get_or (lookup k d) [])
  unfolding lookup
  lookup-put k symbol [] d h = ground (arith, h, string_eq.beq_iff symbol k)
  lookup-put k symbol (m ∷ messages) d h = ground arith

  put-absent :
      (k symbol : String) (messages : List (TailMessage D)) (d : Dict String (List (TailMessage D)))
      → (symbol =? k) ≡ false
      → lookup k d ≡ none
      → lookup k (put_unless_empty symbol messages d) ≡ none
  unfolding lookup
  put-absent k symbol [] d e h = h
  put-absent k symbol (m ∷ messages) d e h = rw e h

  put-IsDict :
      (symbol : String) (messages : List (TailMessage D)) (d : Dict String (List (TailMessage D)))
      → lookup symbol d ≡ none
      → IsDict d
      → IsDict (put_unless_empty symbol messages d)
  put-IsDict symbol [] d h k = k
  put-IsDict symbol (m ∷ messages) d h k = (h, k)

module _ {D : Type 0} (s : TailSettings) where
  keep_from_le :
      (now : ℕ) (messages : List (TailMessage D)) → keep_from s now messages ≤ length messages
  unfolding first_recent
  keep_from_le now [] = omega arith
  keep_from_le now (m ∷ messages) = ground (arith, keep_from_le now messages)

  length-drop :
      (n : ℕ) (messages : List (TailMessage D))
      → n ≤ length messages
      → length (drop n messages) + n ≡ length messages
  length-drop n [] h = ground (arith, h)
  length-drop zero (m ∷ messages) h = omega arith
  length-drop (suc n) (m ∷ messages) h = omega (arith, length-drop n messages (omega (arith, h)))

  trim_entries-absent :
      (now : ℕ) (k : String) (d : Dict String (List (TailMessage D)))
      → lookup k d ≡ none
      → lookup k (trim_entries s now d).0 ≡ none
  unfolding trim_entries lookup
  trim_entries-absent now k [] h = refl
  trim_entries-absent now k ((symbol, messages) ∷ d) h = elim (Bool-cases (symbol =? k)) [
    | inl same ↦ cc
    | inr other ↦
        put-absent k symbol _ _ other (trim_entries-absent now k d (ground (arith, other, h)))
  ]

  trim_entries-IsDict :
      (now : ℕ) (d : Dict String (List (TailMessage D)))
      → IsDict d
      → IsDict (trim_entries s now d).0
  unfolding trim_entries
  trim_entries-IsDict now [] h = tt
  trim_entries-IsDict now ((symbol, messages) ∷ d) h =
      put-IsDict symbol _ _ (trim_entries-absent now symbol d h.0) (trim_entries-IsDict now d h.1)

  -- What trimming leaves of each symbol.
  pub lookup-trim_entries :
      (now : ℕ) (k : String) (d : Dict String (List (TailMessage D)))
      → IsDict d
      → get_or (lookup k (trim_entries s now d).0) []
        ≡ drop (keep_from s now (get_or (lookup k d) [])) (get_or (lookup k d) [])
  unfolding trim_entries lookup first_recent
  lookup-trim_entries now k [] h = refl
  lookup-trim_entries now k ((symbol, messages) ∷ d) h = ground (
    arith,
    lookup-put k symbol (drop (keep_from s now messages) messages) (trim_entries s now d).0
        (trim_entries-absent now symbol d h.0),
    lookup-trim_entries now k d h.1,
  )

  size_of-trim_entries :
      (now : ℕ) (d : Dict String (List (TailMessage D)))
      → size_of (trim_entries s now d).0 + (trim_entries s now d).1 ≡ size_of d
  unfolding trim_entries
  size_of-trim_entries now [] = omega arith
  size_of-trim_entries now ((symbol, messages) ∷ d) = omega (
    arith,
    length-put symbol (drop (keep_from s now messages) messages) (trim_entries s now d).0,
    length-drop (keep_from s now messages) messages (keep_from_le now messages),
    size_of-trim_entries now d,
  )

  add_message-Accounted :
      (m : TailMessage D) (t : Tail D)
      → Accounted s.max_messages_per_symbol t
      → Accounted s.max_messages_per_symbol (add_message s m t)
  unfolding add_message enforce_limit
  add_message-Accounted m t h =
      elim (Bool-cases (ltb s.max_messages_per_symbol (length messages))) [
        | inl over ↦ rw over (record {
          distinct = insert-IsDict m.symbol _ t.buffer h.distinct;
          bounded =
              insert-bounded _ m.symbol _ t.buffer
                (omega (arith, longer, h.bounded m.symbol, shorter, ltb→lt _ _ over)) h.bounded;
          balance = omega (
            arith,
            size_of-insert m.symbol (drop 1 messages) t.buffer,
            longer,
            shorter,
            h.balance,
          );
        })
        | inr fits ↦ rw fits (record {
          distinct = insert-IsDict m.symbol _ t.buffer h.distinct;
          bounded = insert-bounded _ m.symbol _ t.buffer (ground (arith, fits)) h.bounded;
          balance = omega (arith, size_of-insert m.symbol messages t.buffer, longer, h.balance);
        })
      ]
    where
      messages : List (TailMessage D)
      messages = symbol_messages m.symbol t ++ m ∷ []

      longer : length messages ≡ length (symbol_messages m.symbol t) + 1
      longer = length-append (symbol_messages m.symbol t) (m ∷ [])

      shorter : length (drop 1 messages) + 1 ≡ length messages
      shorter = length-drop 1 messages (omega (arith, longer))

  trim_old_messages-Accounted :
      (now : ℕ) (t : Tail D)
      → Accounted s.max_messages_per_symbol t
      → Accounted s.max_messages_per_symbol (trim_old_messages s now t)
  unfolding trim_old_messages
  trim_old_messages-Accounted now t h = record {
    distinct = trim_entries-IsDict now t.buffer h.distinct;
    bounded = λ k. omega (
      arith,
      ap length (lookup-trim_entries now k t.buffer h.distinct),
      length-drop _ (symbol_messages k t) (keep_from_le now (symbol_messages k t)),
      h.bounded k,
    );
    balance = omega (arith, size_of-trim_entries now t.buffer, h.balance);
  }

  module _ {V : Type 0} (parse : V → Option (Payload D)) (fromisoformat : String → Option ℕ) where
    add_if-Accounted :
        (o : Option (TailMessage D)) (t : Tail D)
        → Accounted s.max_messages_per_symbol t
        → Accounted s.max_messages_per_symbol (add_if s o t)
    add_if-Accounted none t h = h
    add_if-Accounted (some m) t h = add_message-Accounted m t h

    pub on_tail_poll-Accounted :
        (t : Tail D) (p : TailPoll V)
        → Accounted s.max_messages_per_symbol t
        → Accounted s.max_messages_per_symbol (on_tail_poll s parse fromisoformat t p)
    unfolding on_tail_poll maybe_trim process_message
    on_tail_poll-Accounted t (no_message checked_at now) h =
        elim (Bool-cases (ltb checked_at (t.last_trim_time + s.trim_interval))) [
          | inl early ↦ rw early h
          | inr late ↦
              rw late (record { distinct = k.distinct; bounded = k.bounded; balance = k.balance })
        ]
      where
        k : Accounted s.max_messages_per_symbol (trim_old_messages s now t)
        k = trim_old_messages-Accounted now t h
    on_tail_poll-Accounted t kafka_error h = h
    on_tail_poll-Accounted t (incoming m) h = add_if-Accounted _ t h

    -- Whatever a tail polls, if it was so before: its symbols are distinct, none holds more
    -- messages than the limit, and the messages in the buffer and those counted as trimmed are
    -- together those counted as received.
    pub consume_loop-Accounted :
        (t : Tail D) (polls : List (TailPoll V))
        → Accounted s.max_messages_per_symbol t
        → Accounted s.max_messages_per_symbol (consume_loop s parse fromisoformat t polls)
    unfolding consume_loop
    consume_loop-Accounted t [] h = h
    consume_loop-Accounted t (p ∷ polls) h =
        consume_loop-Accounted (on_tail_poll s parse fromisoformat t p) polls
          (on_tail_poll-Accounted t p h)
