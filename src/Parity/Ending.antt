-- ===== src/Parity/Ending.antt =====
-- A reading ends: fifteen quiet polls in a row are enough.
use k2_market_data_platform.Base.{
  ℕ, zero, suc, ◌+◌, ◌≤◌, ◌≡◌, refl, Bool, true, false, Bool-cases, inl, inr, Option, none, some,
  List, [], ◌∷◌, ◌++◌, leb, arith,
}
use k2_market_data_platform.Base.Int.{ℤ, ltb_ℤ}
use k2_market_data_platform.Base.Dict.{Dict}
use k2_market_data_platform.Parity.{Norm}
use k2_market_data_platform.Parity.Window.{
  Message, Poll, nothing, failed, got, Reading, Loop, continued, at_end, close_read, kept,
  take_value, take_message, on_poll, is_none_left, consume, consume_window, from_assignment,
  assigned, begin_loop, idle_polls_before_giving_up,
}
use k2_market_data_platform.Parity.Quiet.{nothings, is_waiting}

module _ {V : Type 0} (decode : V → Option Norm) (highs : Dict ℕ ℤ) (end_ms : ℤ) where
  no_stop_waits :
      (m : Message V) (st : Loop) (b : Option Bool) (rest : Loop → Reading)
      → ((next : Loop) → is_waiting (rest next) ≡ false)
      → is_waiting (continued rest (close_read highs m st b)) ≡ false
  no_stop_waits m st none rest h = refl
  no_stop_waits m st (some false) rest h = h st
  no_stop_waits m st (some true) rest h = h _

  poll_waits :
      (st : Loop) (p : Poll V) (rest : Loop → Reading)
      → ((next : Loop) → is_waiting (rest next) ≡ false)
      → is_waiting (continued rest (on_poll decode highs end_ms st p)) ≡ false
  unfolding on_poll take_message
  poll_waits st nothing rest h = elim (Bool-cases (leb idle_polls_before_giving_up (suc st.idle))) [
    | inl over ↦ rw over refl
    | inr going ↦ rw going (h _)
  ]
  poll_waits st failed rest h = refl
  poll_waits st (got m) rest h = elim (Bool-cases (ltb_ℤ end_ms m.ts_ms)) [
    | inl late ↦ rw late (h _)
    | inr early ↦ rw early (value m.value)
  ]
    where
      decoded :
          (n : Option Norm)
          → is_waiting (continued rest (kept decode highs end_ms m (record st { idle = 0 }) n))
            ≡ false
      decoded none = refl
      decoded (some n) =
          no_stop_waits m
            (record st { records = st.records ++ n ∷ []; consumed = suc st.consumed; idle = 0 })
            (at_end highs m) rest h

      value :
          (o : Option V)
          → is_waiting
              (continued rest (take_value decode highs end_ms m (record st { idle = 0 }) o))
            ≡ false
      value none = no_stop_waits m (record st { idle = 0 }) (at_end highs m) rest h
      value (some v) = decoded (decode v)

  -- the loop's test first
  consume-cons :
      (st : Loop) (p : Poll V) (polls : List (Poll V))
      → is_waiting (
          continued
            (λ next. consume decode highs end_ms next polls)
            (on_poll decode highs end_ms st p))
        ≡ false
      → is_waiting (consume decode highs end_ms st (p ∷ polls)) ≡ false
  unfolding consume
  consume-cons st p polls h = elim (Bool-cases (is_none_left st.pending)) [
    | inl over ↦ rw (over, consume) refl
    | inr left ↦ rw (left, consume) h
  ]

  quiet_ends :
      (n : ℕ) (st : Loop) (post : List (Poll V))
      → 1 ≤ n
      → 15 ≤ st.idle + n
      → is_waiting (consume decode highs end_ms st (nothings n ++ post)) ≡ false
  unfolding on_poll
  quiet_ends zero st post one h = ground (arith, one)
  quiet_ends (suc n) st post one h =
      consume-cons st nothing (nothings n ++ post)
        (elim (Bool-cases (leb idle_polls_before_giving_up (suc st.idle))) [
          | inl over ↦ rw over refl
          | inr going ↦ rw going (
              quiet_ends n (record st { idle = suc st.idle }) post (ground (arith, h, going))
                (omega (arith, h)))
        ])

  consume-ends :
      (pre post : List (Poll V)) (st : Loop)
      → is_waiting (consume decode highs end_ms st (pre ++ nothings 15 ++ post)) ≡ false
  consume-ends [] post st = quiet_ends 15 st post (omega arith) (omega arith)
  consume-ends (p ∷ pre) post st = consume-cons st p (pre ++ nothings 15 ++ post) (
      poll_waits st p (λ next. consume decode highs end_ms next (pre ++ nothings 15 ++ post))
        (λ next. consume-ends pre post next))

  -- A reading ends, one way or another, once fifteen polls in a row have returned nothing, whatever the
  -- polls before them returned.
  pub consume_window-ends :
      (topic : Option (List (ℕ × ℤ))) (pre post : List (Poll V))
      → is_waiting (consume_window decode highs end_ms topic (pre ++ nothings 15 ++ post)) ≡ false
  unfolding consume_window
  consume_window-ends none pre post = refl
  consume_window-ends (some starts) pre post = from (assigned starts highs)
    where
      from :
          (ps : List ℕ)
          → is_waiting (from_assignment decode highs end_ms (pre ++ nothings 15 ++ post) ps) ≡ false
      from [] = refl
      from (p ∷ ps) = consume-ends pre post (begin_loop (p ∷ ps))
