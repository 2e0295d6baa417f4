-- ===== src/Parity/Quiet.antt =====
-- A reading gives up for fifteen quiet polls in a row alone.
use k2_market_data_platform.Base.{
  ℕ, zero, suc, ◌<◌, ◌≡◌, refl, sym, ap, ◌∙◌, subst, Bool, true, false, Bool-cases, inl, inr,
  Option, none, some, List, [], ◌∷◌, ◌++◌, if◌then◌else◌, leb, arith,
}
use k2_market_data_platform.Base.Int.{ℤ, ltb_ℤ}
use k2_market_data_platform.Base.Dict.{Dict}
use k2_market_data_platform.Parity.{Norm}
use k2_market_data_platform.Parity.Window.{
  Message, Poll, nothing, failed, got, Reading, complete, truncated, died, waiting, no_topic,
  no_records, Loop, Step, go_on, stop, continued, at_end, close_read, kept, take_value,
  take_message, on_poll, is_none_left, consume, consume_window, from_assignment, assigned,
  begin_loop, idle_polls_before_giving_up,
}
use k2_market_data_platform.Parity.Reading.{true-false}

abbrev pub nothings : {V : Type 0} → ℕ → List (Poll V)
nothings zero = []
nothings (suc n) = nothing ∷ nothings n

abbrev pub is_waiting : Reading → Bool
is_waiting (complete records consumed) = false
is_waiting (truncated records consumed) = false
is_waiting no_topic = false
is_waiting no_records = false
is_waiting died = false
is_waiting waiting = true

abbrev pub is_truncated : Reading → Bool
is_truncated (truncated records consumed) = true
is_truncated (complete records consumed) = false
is_truncated no_topic = false
is_truncated no_records = false
is_truncated died = false
is_truncated waiting = false

module _ {V : Type 0} (decode : V → Option Norm) (highs : Dict ℕ ℤ) (end_ms : ℤ) where
  -- a message's turn ends no reading as truncated, and starts the count of quiet polls anew
  abbrev Awake : Step → Type 0
  Awake (stop reading) = is_truncated reading ≡ false
  Awake (go_on next) = next.idle ≡ 0

  close_read-Awake :
      (m : Message V) (st : Loop) (b : Option Bool) → st.idle ≡ 0 → Awake (close_read highs m st b)
  close_read-Awake m st none e = refl
  close_read-Awake m st (some false) e = e
  close_read-Awake m st (some true) e = e

  take_value-Awake :
      (m : Message V) (st : Loop) (o : Option V)
      → st.idle ≡ 0
      → Awake (take_value decode highs end_ms m st o)
  take_value-Awake m st none e = close_read-Awake m st (at_end highs m) e
  take_value-Awake m st (some v) e = decoded (decode v)
    where
      decoded : (n : Option Norm) → Awake (kept decode highs end_ms m st n)
      decoded none = refl
      decoded (some n) =
          close_read-Awake m
            (record st { records = st.records ++ n ∷ []; consumed = suc st.consumed })
            (at_end highs m) e

  take_message-Awake :
      (m : Message V) (st : Loop) → st.idle ≡ 0 → Awake (take_message decode highs end_ms m st)
  unfolding take_message
  take_message-Awake m st e = elim (Bool-cases (ltb_ℤ end_ms m.ts_ms)) [
    | inl late ↦ rw late e
    | inr early ↦ rw early (take_value-Awake m st m.value e)
  ]

  -- fifteen quiet polls in a row, the ones before these polls counted
  abbrev GaveUp : ℕ → List (Poll V) → Type 0
  GaveUp idle polls =
      (pre : List (Poll V)) × (post : List (Poll V)) × (nothings idle ++ polls
        ≡ pre ++ nothings 15 ++ post)

  one_more :
      (n : ℕ) (polls : List (Poll V)) → nothings n ++ nothing ∷ polls ≡ nothings (suc n) ++ polls
  one_more zero polls = refl
  one_more (suc n) polls = ap (λ xs. nothing ∷ xs) (one_more n polls)

  not_truncated {ℓ} :
      {A : Type ℓ} (r : Reading) → is_truncated r ≡ false → is_truncated r ≡ true → A
  not_truncated r f t = elim (true-false (sym t ∙ f)) [ ]

  regroup :
      (xs : List (Poll V)) (m : Message V) (pre post : List (Poll V))
      → xs ++ got m ∷ (pre ++ post) ≡ (xs ++ got m ∷ pre) ++ post
  regroup [] m pre post = refl
  regroup (x ∷ xs) m pre post = ap (λ ys. x ∷ ys) (regroup xs m pre post)

  after_message :
      (rest : Loop → Reading) (idle : ℕ) (m : Message V) (polls : List (Poll V)) (s : Step)
      → ((next : Loop) → next.idle ≡ 0 → is_truncated (rest next) ≡ true → GaveUp 0 polls)
      → Awake s
      → is_truncated (continued rest s) ≡ true
      → GaveUp idle (got m ∷ polls)
  after_message rest idle m polls (stop reading) f a h = not_truncated reading a h
  after_message rest idle m polls (go_on next) f a h =
      let (pre, post, e) = f next a h in
      (
        nothings idle ++ got m ∷ pre,
        post,
        ap (λ xs. nothings idle ++ got m ∷ xs) e
            ∙ regroup (nothings idle) m (pre ++ nothings 15) post
            ∙ ap (λ xs. xs ++ post) (regroup (nothings idle) m pre (nothings 15)),
      )

  after_nothing :
      (rest : Loop → Reading) (st : Loop) (polls : List (Poll V))
      → ((next : Loop) → next.idle < 15 → is_truncated (rest next) ≡ true → GaveUp next.idle polls)
      → st.idle < 15
      → is_truncated (continued rest (on_poll decode highs end_ms st nothing)) ≡ true
      → GaveUp st.idle (nothing ∷ polls)
  unfolding on_poll
  after_nothing rest st polls f few h =
      elim (Bool-cases (leb idle_polls_before_giving_up (suc st.idle))) [
        | inl over ↦
            ([], polls, one_more st.idle polls ∙ ap (λ n. nothings n ++ polls) (fourteen over))
        | inr going ↦
            let (pre, post, e) =
              f (record st { idle = suc st.idle }) (ground (arith, going))
                (subst
                  (λ b.
                    is_truncated (
                      continued rest (
                        if b
                        then stop (truncated st.records st.consumed)
                        else go_on (record st { idle = suc st.idle })))
                    ≡ true)
                  going h) in
            (pre, post, one_more st.idle polls ∙ e)
      ]
    where
      fourteen : leb idle_polls_before_giving_up (suc st.idle) ≡ true → suc st.idle ≡ 15
      fourteen over = ground (arith, over, few)

  consume-GaveUp :
      (st : Loop) (polls : List (Poll V))
      → st.idle < 15
      → is_truncated (consume decode highs end_ms st polls) ≡ true
      → GaveUp st.idle polls
  unfolding consume on_poll
  consume-GaveUp st [] few h = elim (Bool-cases (is_none_left st.pending)) [
    | inl over ↦ ground (arith, h, over)
    | inr left ↦ ground (arith, h, left)
  ]
  consume-GaveUp st (p ∷ polls) few h = elim (Bool-cases (is_none_left st.pending)) [
    | inl over ↦ ground (arith, h, over)
    | inr left ↦
        poll p (λ next few' h'. consume-GaveUp next polls few' h')
          (subst
            (λ b.
              is_truncated (elim b [
                | true ↦ complete st.records st.consumed
                | false ↦
                    continued (λ next. consume decode highs end_ms next polls)
                      (on_poll decode highs end_ms st p)
              ])
              ≡ true)
            left h)
  ]
    where
      poll :
          (p : Poll V)
          → ((next : Loop)
              → next.idle < 15
              → is_truncated (consume decode highs end_ms next polls) ≡ true
              → GaveUp next.idle polls)
          → is_truncated (
              continued
                (λ next. consume decode highs end_ms next polls)
                (on_poll decode highs end_ms st p))
            ≡ true
          → GaveUp st.idle (p ∷ polls)
      poll nothing f k =
          after_nothing (λ next. consume decode highs end_ms next polls) st polls f few k
      poll failed f k = ground (arith, k)
      poll (got m) f k =
          after_message (λ next. consume decode highs end_ms next polls) st.idle m polls
            (take_message decode highs end_ms m (record st { idle = 0 }))
            (λ next e h'. subst (λ n. GaveUp n polls) e (f next (omega (arith, e)) h'))
            (take_message-Awake m (record st { idle = 0 }) refl) k

  -- A reading is truncated only where fifteen polls in a row returned nothing.
  pub consume_window-truncated :
      (topic : Option (List (ℕ × ℤ))) (polls : List (Poll V))
      → is_truncated (consume_window decode highs end_ms topic polls) ≡ true
      → (pre : List (Poll V)) × (post : List (Poll V)) × (polls ≡ pre ++ nothings 15 ++ post)
  unfolding consume_window
  consume_window-truncated none polls h = ground (arith, h)
  consume_window-truncated (some starts) polls h = from (assigned starts highs) h
    where
      from :
          (ps : List ℕ)
          → is_truncated (from_assignment decode highs end_ms polls ps) ≡ true
          → (pre : List (Poll V)) × (post : List (Poll V)) × (polls ≡ pre ++ nothings 15 ++ post)
      from [] k = ground (arith, k)
      from (p ∷ ps) k = consume-GaveUp (begin_loop (p ∷ ps)) polls (omega arith) k
