-- ===== src/Parity/Window.antt =====
-- `consume_window`: the reading of one topic from the offsets at the window's start to the first record
-- past its end on each partition. The broker's answers are inputs: which partitions the topic has, the
-- first offset of the window and the high watermark of each, and what each poll returns. Decoding and
-- normalising a value is a parameter.
use k2_market_data_platform.Base.{
  ℕ, suc, Bool, true, false, ◌&&◌, Option, none, some, List, [], ◌∷◌, ◌++◌, if◌then◌else◌, leb,
  ◌==◌,
}
use k2_market_data_platform.Base.Int.{ℤ, pos, ◌+ℤ◌, leb_ℤ, ltb_ℤ}
use k2_market_data_platform.Base.Eq.{nat_eq}
use k2_market_data_platform.Base.Dict.{Dict, lookup}
use k2_market_data_platform.Parity.{Norm}

abbrev pub idle_polls_before_giving_up : ℕ
idle_polls_before_giving_up = 15

-- a message, its value none where it is null
pub record Message (V : Type 0) : Type 0 where
  pub partition : ℕ
  pub offset : ℤ
  pub ts_ms : ℤ
  pub value : Option V

-- what a poll returns: None, an error, or a message
pub data Poll (V : Type 0) : Type 0 where
  nothing : Poll V
  failed : Poll V
  got : Message V → Poll V

-- how a reading ends; `waiting` is not an end: the polls that are given are used up
pub data Reading : Type 0 where
  no_topic : Reading
  no_records : Reading
  died : Reading
  truncated : List Norm → ℕ → Reading
  complete : List Norm → ℕ → Reading
  waiting : Reading

-- the loop's variables, and the partitions that the consumer was told to pause
pub record Loop : Type 0 where
  pub records : List Norm
  pub consumed : ℕ
  pub idle : ℕ
  pub pending : List ℕ
  pub paused : List ℕ

pub data Step : Type 0 where
  go_on : Loop → Step
  stop : Reading → Step

-- the rest of the loop, where the body does not return
abbrev pub continued : (Loop → Reading) → Step → Reading
continued rest (go_on next) = rest next
continued rest (stop reading) = reading

-- The partitions with a record in the window, below their high watermark. The code asks for both of
-- the same partitions, so that none lacks a watermark.
unfoldable pub assigned : List (ℕ × ℤ) → Dict ℕ ℤ → List ℕ
assigned [] highs = []
assigned ((p, offset) ∷ starts) highs =
    let rest = assigned starts highs in
    elim (lookup p highs) [
      | none ↦ rest
      | some high ↦ if leb_ℤ (pos 0) offset && ltb_ℤ offset high then p ∷ rest else rest
    ]

-- `pending.discard(partition)`
unfoldable pub discard : ℕ → List ℕ → List ℕ
discard p [] = []
discard p (q ∷ qs) = let rest = discard p qs in if q == p then rest else q ∷ rest

abbrev pub is_none_left : List ℕ → Bool
is_none_left [] = true
is_none_left (p ∷ ps) = false

abbrev pub begin_loop : List ℕ → Loop
begin_loop ps = record { records = []; consumed = 0; idle = 0; pending = ps; paused = [] }

module _ {V : Type 0} (highs : Dict ℕ ℤ) where
  -- `offset + 1 >= highs[partition]`; a partition without a watermark is a KeyError
  unfoldable pub at_end : Message V → Option Bool
  at_end m = elim (lookup m.partition highs) [
    | none ↦ none
    | some high ↦ some (leb_ℤ high (m.offset +ℤ pos 1))
  ]

  -- the last test of the loop's body
  abbrev pub close_read : Message V → Loop → Option Bool → Step
  close_read m st none = stop died
  close_read m st (some false) = go_on st
  close_read m st (some true) = go_on (record st { pending = discard m.partition st.pending })

module _ {V : Type 0} (decode : V → Option Norm) (highs : Dict ℕ ℤ) (end_ms : ℤ) where
  abbrev pub kept : Message V → Loop → Option Norm → Step
  kept m st none = stop died
  kept m st (some n) =
      close_read highs m (record st { records = st.records ++ n ∷ []; consumed = suc st.consumed })
        (at_end highs m)

  abbrev pub take_value : Message V → Loop → Option V → Step
  take_value m st none = close_read highs m st (at_end highs m)
  take_value m st (some v) = kept m st (decode v)

  -- a message's turn
  unfoldable pub take_message : Message V → Loop → Step
  take_message m st =
      if ltb_ℤ end_ms m.ts_ms
      then go_on
          (record st { pending = discard m.partition st.pending; paused = m.partition ∷ st.paused })
      else take_value m st m.value

  unfoldable pub on_poll : Loop → Poll V → Step
  on_poll st nothing =
      if leb idle_polls_before_giving_up (suc st.idle)
      then stop (truncated st.records st.consumed)
      else go_on (record st { idle = suc st.idle })
  on_poll st failed = stop died
  on_poll st (got m) = take_message m (record st { idle = 0 })

  -- `while pending`
  unfoldable pub consume : Loop → List (Poll V) → Reading
  consume st [] = if is_none_left st.pending then complete st.records st.consumed else waiting
  consume st (p ∷ polls) = elim (is_none_left st.pending) [
    | true ↦ complete st.records st.consumed
    | false ↦ continued (λ next. consume next polls) (on_poll st p)
  ]

  abbrev pub from_assignment : List (Poll V) → List ℕ → Reading
  from_assignment polls [] = no_records
  from_assignment polls (p ∷ ps) = consume (begin_loop (p ∷ ps)) polls

  -- the whole function, from what the broker says of the topic: none where it does not exist
  unfoldable pub consume_window : Option (List (ℕ × ℤ)) → List (Poll V) → Reading
  consume_window none polls = no_topic
  consume_window (some starts) polls = from_assignment polls (assigned starts highs)
