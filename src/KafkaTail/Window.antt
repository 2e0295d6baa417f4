-- ===== src/KafkaTail/Window.antt =====
-- What a query of the buffer answers, compared with all the messages that were received.
use k2_market_data_platform.Base.{
  ℕ, zero, suc, ◌+◌, ◌≤◌, ◌≡◌, refl, sym, ap, ◌∙◌, subst, String, true, false, Bool-cases, inl, inr,
  none, some, Option, List, [], ◌∷◌, ◌++◌, append_assoc, append-nil, length, length-append, take,
  drop, All, ltb, if◌then◌else◌, arith,
}
use k2_market_data_platform.Base.Eq.{◌=?◌, string_eq, beq_eq, beq_refl}
use k2_market_data_platform.Base.Dict.{IsDict, lookup, lookup-insert}
use k2_market_data_platform.KafkaTail.{
  TailMessage, TailSettings, Tail, Payload, TailPoll, no_message, kafka_error, incoming,
  symbol_messages, tail_message, enforce_limit, add_message, add_if, process_message, first_recent,
  keep_from, trim_old_messages, maybe_trim, on_tail_poll, consume_loop, query, fresh_tail,
}
use k2_market_data_platform.KafkaTail.Answers.{Answers, select-Answers, old-Answers}
use k2_market_data_platform.KafkaTail.Accounts.{
  Accounted, lookup-trim_entries, on_tail_poll-Accounted,
}

module _ {D V : Type 0} (parse : V → Option (Payload D)) (fromisoformat : String → Option ℕ)
    (symbol : String) where
  abbrev of_symbol : Option (TailMessage D) → List (TailMessage D)
  of_symbol none = []
  of_symbol (some m) = if m.symbol =? symbol then m ∷ [] else []

  -- all the messages of a symbol that were polled
  abbrev pub received : List (TailPoll V) → List (TailMessage D)
  received [] = []
  received (no_message checked_at now ∷ polls) = received polls
  received (kafka_error ∷ polls) = received polls
  received (incoming m ∷ polls) = of_symbol (tail_message parse fromisoformat m) ++ received polls

-- the clock of a trim is at most this
abbrev pub TrimsUntil : {V : Type 0} → ℕ → TailPoll V → Type 0
TrimsUntil bound (no_message checked_at now) = now ≤ bound
TrimsUntil bound kafka_error = Unit
TrimsUntil bound (incoming m) = Unit

module _ {D : Type 0} where
  take-drop :
      (n : ℕ) (messages : List (TailMessage D)) → messages ≡ take n messages ++ drop n messages
  take-drop zero messages = refl
  take-drop (suc n) [] = refl
  take-drop (suc n) (m ∷ messages) = ap (λ rest. m ∷ rest) (take-drop n messages)

  All-append :
      (P : TailMessage D → Type 0) (xs ys : List (TailMessage D))
      → All P xs
      → All P ys
      → All P (xs ++ ys)
  All-append P [] ys h k = k
  All-append P (x ∷ xs) ys h k = (h.0, All-append P xs ys h.1 k)

  add_message-at :
      (s : TailSettings) (m : TailMessage D) (t : Tail D)
      → length (symbol_messages m.symbol t) + 1 ≤ s.max_messages_per_symbol
      → symbol_messages m.symbol (add_message s m t) ≡ symbol_messages m.symbol t ++ m ∷ []
  unfolding add_message enforce_limit
  add_message-at s m t h = ground (
    arith,
    h,
    length-append (symbol_messages m.symbol t) (m ∷ []),
    lookup-insert m.symbol m.symbol (symbol_messages m.symbol t ++ m ∷ []) t.buffer,
    beq_refl m.symbol,
  )

  add_message-elsewhere :
      (s : TailSettings) (m : TailMessage D) (t : Tail D) (k : String)
      → (m.symbol =? k) ≡ false
      → symbol_messages k (add_message s m t) ≡ symbol_messages k t
  unfolding add_message enforce_limit
  add_message-elsewhere s m t k h = ground (
    arith,
    h,
    lookup-insert m.symbol k (symbol_messages m.symbol t ++ m ∷ []) t.buffer,
    lookup-insert m.symbol k (drop 1 (symbol_messages m.symbol t ++ m ∷ [])) t.buffer,
  )

  -- Messages that are out of the window of a query's start, and then those that are held.
  record Held (symbol : String) (start_time : ℕ) (all : List (TailMessage D)) (t : Tail D)
      : Type 0 where
    old : List (TailMessage D)
    split : all ≡ old ++ symbol_messages symbol t
    are_old : All (λ m. ltb m.timestamp start_time ≡ true) old

module _ {D : Type 0} (s : TailSettings) (symbol : String) (start_time : ℕ) where
  before_recent :
      (now : ℕ) (messages : List (TailMessage D))
      → now ≤ start_time + s.buffer_window
      → All (λ m. ltb m.timestamp start_time ≡ true) (take (keep_from s now messages) messages)
  unfolding first_recent
  before_recent now [] h = tt
  before_recent now (m ∷ messages) h = ground (arith, h, before_recent now messages h)

  trim_old_messages-Held :
      (now : ℕ) (all : List (TailMessage D)) (t : Tail D)
      → now ≤ start_time + s.buffer_window
      → IsDict t.buffer
      → Held symbol start_time all t
      → Held symbol start_time all (trim_old_messages s now t)
  unfolding trim_old_messages
  trim_old_messages-Held now all t h d k =
      let messages = symbol_messages symbol t in
      let n = keep_from s now messages in
      record {
        old = k.old ++ take n messages;
        split =
            k.split
            ∙ ap (λ ms. k.old ++ ms) (take-drop n messages)
            ∙ sym (append_assoc k.old (take n messages) (drop n messages))
            ∙ ap (λ ms. k.old ++ take n messages ++ ms)
                (sym (lookup-trim_entries s now symbol t.buffer d));
        are_old = All-append _ k.old (take n messages) k.are_old (before_recent now messages h);
      }

  add_message-Held :
      (all : List (TailMessage D)) (m : TailMessage D) (t : Tail D)
      → length (all ++ (if m.symbol =? symbol then m ∷ [] else [])) ≤ s.max_messages_per_symbol
      → Held symbol start_time all t
      → Held symbol start_time
          (all ++ (if m.symbol =? symbol then m ∷ [] else []))
          (add_message s m t)
  add_message-Held all m t h k = elim (Bool-cases (m.symbol =? symbol)) [
    | inl same ↦ rw same (record {
      old = k.old;
      split =
          ap (λ ms. ms ++ m ∷ []) k.split
          ∙ append_assoc k.old (symbol_messages symbol t) (m ∷ [])
          ∙ ap (λ ms. k.old ++ ms)
              (sym (
                here (beq_eq m.symbol symbol same) (
                  subst
                    (λ b. length (all ++ (if b then m ∷ [] else [])) ≤ s.max_messages_per_symbol)
                    same h)));
      are_old = k.are_old;
    })
    | inr other ↦ rw other (record {
      old = k.old;
      split =
          append-nil all
          ∙ k.split
          ∙ ap (λ ms. k.old ++ ms) (sym (add_message-elsewhere s m t symbol other));
      are_old = k.are_old;
    })
  ]
    where
      here :
          m.symbol ≡ symbol
          → length (all ++ m ∷ []) ≤ s.max_messages_per_symbol
          → symbol_messages symbol (add_message s m t) ≡ symbol_messages symbol t ++ m ∷ []
      here same few =
          subst (λ k. symbol_messages k (add_message s m t) ≡ symbol_messages k t ++ m ∷ []) same
            (add_message-at s m t (
              omega (
                arith,
                few,
                length-append all (m ∷ []),
                ap length k.split,
                length-append k.old (symbol_messages symbol t),
                ap (λ j. length (symbol_messages j t)) same,
              )))

  module _ {V : Type 0} (parse : V → Option (Payload D)) (fromisoformat : String → Option ℕ) where
    maybe_trim-Held :
        (checked_at now : ℕ) (all : List (TailMessage D)) (t : Tail D)
        → now ≤ start_time + s.buffer_window
        → IsDict t.buffer
        → Held symbol start_time all t
        → Held symbol start_time all (maybe_trim s checked_at now t)
    unfolding maybe_trim
    maybe_trim-Held checked_at now all t h d k =
        let trimmed = trim_old_messages-Held now all t h d k in
        elim (Bool-cases (ltb checked_at (t.last_trim_time + s.trim_interval))) [
          | inl early ↦ rw early k
          | inr late ↦
              rw late
                (record { old = trimmed.old; split = trimmed.split; are_old = trimmed.are_old })
        ]

    add_if-Held :
        (all : List (TailMessage D)) (o : Option (TailMessage D)) (t : Tail D)
        → length (all ++ of_symbol parse fromisoformat symbol o) ≤ s.max_messages_per_symbol
        → Held symbol start_time all t
        → Held symbol start_time (all ++ of_symbol parse fromisoformat symbol o) (add_if s o t)
    add_if-Held all none t few h =
        subst (λ ms. Held symbol start_time ms t) (sym (append-nil all)) h
    add_if-Held all (some m) t few h = add_message-Held all m t few h

    consume_loop-Held :
        (all : List (TailMessage D)) (t : Tail D) (polls : List (TailPoll V))
        → All (TrimsUntil (start_time + s.buffer_window)) polls
        → length (all ++ received parse fromisoformat symbol polls) ≤ s.max_messages_per_symbol
        → Accounted s.max_messages_per_symbol t
        → Held symbol start_time all t
        → Held symbol start_time
            (all ++ received parse fromisoformat symbol polls)
            (consume_loop s parse fromisoformat t polls)
    unfolding consume_loop on_tail_poll process_message
    consume_loop-Held all t [] trims few a h =
        subst (λ ms. Held symbol start_time ms t) (sym (append-nil all)) h
    consume_loop-Held all t (no_message checked_at now ∷ polls) trims few a h =
        consume_loop-Held all _ polls trims.1 few
          (on_tail_poll-Accounted s parse fromisoformat t (no_message checked_at now) a)
          (maybe_trim-Held checked_at now all t trims.0 a.distinct h)
    consume_loop-Held all t (kafka_error ∷ polls) trims few a h =
        consume_loop-Held all t polls trims.1 few a h
    consume_loop-Held all t (incoming m ∷ polls) trims few a h =
        subst
          (λ ms.
            Held symbol start_time ms (consume_loop s parse fromisoformat t (incoming m ∷ polls)))
          (append_assoc all here (received parse fromisoformat symbol polls))
          (consume_loop-Held (all ++ here) _ polls trims.1
            (subst (λ ms. length ms ≤ s.max_messages_per_symbol)
              (sym (append_assoc all here (received parse fromisoformat symbol polls))) few)
            (on_tail_poll-Accounted s parse fromisoformat t (incoming m) a)
            (add_if-Held all (tail_message parse fromisoformat m) t
              (omega (
                arith,
                length-append (all ++ here) (received parse fromisoformat symbol polls),
                ap length (append_assoc all here (received parse fromisoformat symbol polls)),
                few,
              ))
              h))
      where
        here : List (TailMessage D)
        here = of_symbol parse fromisoformat symbol (tail_message parse fromisoformat m)

    -- A query of a tail answers all the messages of the symbol and the exchange with a time in the
    -- range, both ends in it, that were received since the tail was made, and no other, in the order
    -- that they came in, which need not be that of their times. The symbol has had no more messages
    -- than the limit, of any exchange, and the range starts within the window of every trim so far.
    pub query-received :
        (exchange : String) (end_time began : ℕ) (polls : List (TailPoll V))
        → All (TrimsUntil (start_time + s.buffer_window)) polls
        → length (received parse fromisoformat symbol polls) ≤ s.max_messages_per_symbol
        → Answers exchange start_time end_time (received parse fromisoformat symbol polls) (
            query symbol exchange start_time end_time
              (consume_loop s parse fromisoformat (fresh_tail began) polls))
    unfolding query lookup
    query-received exchange end_time began polls trims few =
        let t = consume_loop s parse fromisoformat (fresh_tail began) polls in
        let h =
          consume_loop-Held [] (fresh_tail began) polls trims few
            (record { distinct = tt; bounded = λ k. omega arith; balance = refl })
            (record { old = []; split = refl; are_old = tt }) in
        subst
          (λ ms.
            Answers exchange start_time end_time ms (query symbol exchange start_time end_time t))
          (sym h.split)
          (old-Answers exchange start_time end_time h.old h.are_old
            (select-Answers exchange start_time end_time (symbol_messages symbol t)))
