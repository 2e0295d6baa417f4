-- ===== src/Parity/Reading.antt =====
-- What one poll does to the reading of a topic, against what the polls returned.
use k2_market_data_platform.Base.{
  ℕ, suc, ◌+◌, ◌≡◌, ◌≢◌, refl, sym, ap, ◌∙◌, subst, Bool, true, false, ◌&&◌, ◌||◌, Option, none,
  some, List, [], ◌∷◌, ◌++◌, length, append-nil, All, Bool-cases, inl, inr, if◌then◌else◌, leb,
  ◌==◌, arith,
}
use k2_market_data_platform.Base.Int.{ℤ, ltb_ℤ}
use k2_market_data_platform.Base.Dict.{Dict}
use k2_market_data_platform.Parity.{Norm}
use k2_market_data_platform.Parity.Window.{
  Message, Poll, nothing, failed, got, Reading, complete, truncated, died, waiting, no_topic,
  no_records, Loop, Step, go_on, stop, discard, at_end, close_read, kept, take_value, take_message,
  on_poll, idle_polls_before_giving_up,
}

pub true-false : true ≢ false
true-false e = ground (arith, e)

abbrev pub is_in : ℕ → List ℕ → Bool
is_in q [] = false
is_in q (p ∷ ps) = p == q || is_in q ps

module _ {V : Type 0} (decode : V → Option Norm) (highs : Dict ℕ ℤ) (end_ms : ℤ) where
  abbrev decoded : Option V → List Norm
  decoded none = []
  decoded (some v) = elim (decode v) [ none ↦ [] | some n ↦ n ∷ [] ]

  -- the records of what some polls returned: messages within the window, with a value
  unfoldable pub accepted : List (Poll V) → List Norm
  accepted [] = []
  accepted (nothing ∷ polls) = accepted polls
  accepted (failed ∷ polls) = accepted polls
  accepted (got m ∷ polls) =
      (if ltb_ℤ end_ms m.ts_ms then [] else decoded m.value) ++ accepted polls

  abbrev is_true : Option Bool → Bool
  is_true none = false
  is_true (some b) = b

  -- a message that shows a partition read to the end of the window or to its watermark
  abbrev reaches : ℕ → Message V → Bool
  reaches p m = m.partition == p && (ltb_ℤ end_ms m.ts_ms || is_true (at_end highs m))

  unfoldable pub is_reached : ℕ → List (Poll V) → Bool
  is_reached p [] = false
  is_reached p (nothing ∷ polls) = is_reached p polls
  is_reached p (failed ∷ polls) = is_reached p polls
  is_reached p (got m ∷ polls) = reaches p m || is_reached p polls

  abbrev pub is_complete : Reading → Bool
  is_complete (complete records consumed) = true
  is_complete (truncated records consumed) = false
  is_complete no_topic = false
  is_complete no_records = false
  is_complete died = false
  is_complete waiting = false

  -- what a message's turn leaves of a state
  abbrev pub Took : Loop → List (Poll V) → Step → Type 0
  Took st one (stop reading) = is_complete reading ≡ false
  Took st one (go_on next) =
      (next.records ≡ st.records ++ accepted one)
      × (next.consumed ≡ st.consumed + length (accepted one))
      × All (λ q. (is_in q next.pending || is_reached q one) ≡ true) st.pending

  is_in-discard :
      (q p : ℕ) (ps : List ℕ) → is_in q (discard p ps) ≡ (if p == q then false else is_in q ps)
  unfolding discard
  is_in-discard q p [] = ground arith
  is_in-discard q p (x ∷ ps) = ground (arith, is_in-discard q p ps)

  All-is_in :
      (f : ℕ → Bool) (ps qs : List ℕ)
      → All (λ q. is_in q qs ≡ true) ps
      → All (λ q. (is_in q qs || f q) ≡ true) ps
  All-is_in f [] qs h = tt
  All-is_in f (p ∷ ps) qs h = (ground (arith, h.0), All-is_in f ps qs h.1)

  All-weaken :
      (x : ℕ) (ps qs : List ℕ)
      → All (λ q. is_in q qs ≡ true) ps
      → All (λ q. is_in q (x ∷ qs) ≡ true) ps
  All-weaken x [] qs h = tt
  All-weaken x (p ∷ ps) qs h = (ground (arith, h.0), All-weaken x ps qs h.1)

  All-self : (ps : List ℕ) → All (λ q. is_in q ps ≡ true) ps
  All-self [] = tt
  All-self (p ∷ ps) = (ground arith, All-weaken p ps ps (All-self ps))

  All-discard :
      (m : Message V) (ps qs : List ℕ)
      → reaches m.partition m ≡ true
      → All (λ q. is_in q qs ≡ true) ps
      → All (λ q. (is_in q (discard m.partition qs) || is_reached q (got m ∷ [])) ≡ true) ps
  unfolding is_reached
  All-discard m [] qs r h = tt
  All-discard m (p ∷ ps) qs r h =
      (ground (arith, r, h.0, is_in-discard p m.partition qs), All-discard m ps qs r h.1)

  close_read-Took :
      (m : Message V) (st new : Loop) (b : Option Bool)
      → at_end highs m ≡ b
      → new.pending ≡ st.pending
      → new.records ≡ st.records ++ accepted (got m ∷ [])
      → new.consumed ≡ st.consumed + length (accepted (got m ∷ []))
      → Took st (got m ∷ []) (close_read highs m new b)
  close_read-Took m st new none e p r c = refl
  close_read-Took m st new (some false) e p r c = (
    r,
    c,
    subst (λ ps. All (λ q. (is_in q ps || is_reached q (got m ∷ [])) ≡ true) st.pending) (sym p)
        (All-is_in (λ q. is_reached q (got m ∷ [])) st.pending st.pending (All-self st.pending)),
  )
  close_read-Took m st new (some true) e p r c = (
    r,
    c,
    subst
        (λ ps.
          All (λ q. (is_in q (discard m.partition ps) || is_reached q (got m ∷ [])) ≡ true)
            st.pending)
        (sym p) (All-discard m st.pending st.pending (ground (arith, e)) (All-self st.pending)),
  )

  -- the records of one message
  late_accepted : (m : Message V) → ltb_ℤ end_ms m.ts_ms ≡ true → accepted (got m ∷ []) ≡ []
  unfolding accepted
  late_accepted m late = rw late refl

  accepted-one :
      (m : Message V) (o : Option V)
      → ltb_ℤ end_ms m.ts_ms ≡ false
      → m.value ≡ o
      → accepted (got m ∷ []) ≡ decoded o
  unfolding accepted
  accepted-one m o early e = rw (early, e) (append-nil (decoded o))

  kept-Took :
      (m : Message V) (st : Loop) (v : V) (n : Option Norm)
      → ltb_ℤ end_ms m.ts_ms ≡ false
      → m.value ≡ some v
      → decode v ≡ n
      → Took st (got m ∷ []) (kept decode highs end_ms m st n)
  kept-Took m st v none early e d = refl
  kept-Took m st v (some n) early e d =
      let one : accepted (got m ∷ []) ≡ n ∷ [] =
        accepted-one m (some v) early e ∙ rw (d, decoded) refl in
      close_read-Took m st
        (record st { records = st.records ++ n ∷ []; consumed = suc st.consumed }) (at_end highs m)
        refl refl (rw one refl) (rw one (omega arith))

  take_value-Took :
      (m : Message V) (st : Loop) (o : Option V)
      → ltb_ℤ end_ms m.ts_ms ≡ false
      → m.value ≡ o
      → Took st (got m ∷ []) (take_value decode highs end_ms m st o)
  take_value-Took m st none early e =
      close_read-Took m st st (at_end highs m) refl refl
        (rw (accepted-one m none early e) (sym (append-nil st.records)))
        (rw (accepted-one m none early e) (omega arith))
  take_value-Took m st (some v) early e = kept-Took m st v (decode v) early e refl

  take_message-Took :
      (m : Message V) (st : Loop) → Took st (got m ∷ []) (take_message decode highs end_ms m st)
  unfolding take_message
  take_message-Took m st = elim (Bool-cases (ltb_ℤ end_ms m.ts_ms)) [
    | inl late ↦ rw late (
      rw (late_accepted m late) (sym (append-nil st.records)),
      rw (late_accepted m late) (omega arith),
      All-discard m st.pending st.pending (ground (arith, late)) (All-self st.pending),
    )
    | inr early ↦ rw early (take_value-Took m st m.value early refl)
  ]

  pub on_poll-Took : (st : Loop) (p : Poll V) → Took st (p ∷ []) (on_poll decode highs end_ms st p)
  unfolding on_poll accepted is_reached
  on_poll-Took st nothing = elim (Bool-cases (leb idle_polls_before_giving_up (suc st.idle))) [
    | inl over ↦ rw over refl
    | inr going ↦ rw going (
      sym (append-nil st.records),
      omega arith,
      All-is_in (λ q. false) st.pending st.pending (All-self st.pending),
    )
  ]
  on_poll-Took st failed = refl
  on_poll-Took st (got m) = take_message-Took m (record st { idle = 0 })

  pub accepted-cons :
      (p : Poll V) (polls : List (Poll V))
      → accepted (p ∷ polls) ≡ accepted (p ∷ []) ++ accepted polls
  unfolding accepted
  accepted-cons nothing polls = refl
  accepted-cons failed polls = refl
  accepted-cons (got m) polls =
      ap (λ xs. xs ++ accepted polls)
        (sym (append-nil (if ltb_ℤ end_ms m.ts_ms then [] else decoded m.value)))

  is_reached-cons :
      (q : ℕ) (p : Poll V) (polls : List (Poll V))
      → is_reached q (p ∷ polls) ≡ (is_reached q (p ∷ []) || is_reached q polls)
  unfolding is_reached
  is_reached-cons q nothing polls = refl
  is_reached-cons q failed polls = refl
  is_reached-cons q (got m) polls = ground arith

  pub reached_later :
      (p : Poll V) (polls : List (Poll V)) (ps next : List ℕ)
      → All (λ q. (is_in q next || is_reached q (p ∷ [])) ≡ true) ps
      → ((q : ℕ) → is_in q next ≡ true → is_reached q polls ≡ true)
      → All (λ q. is_reached q (p ∷ polls) ≡ true) ps
  reached_later p polls [] next h k = tt
  reached_later p polls (q ∷ ps) next h k =
      (ground (arith, h.0, k q, is_reached-cons q p polls), reached_later p polls ps next h.1 k)

  pub All-at :
      (f : ℕ → Bool) (ps : List ℕ)
      → All (λ q. f q ≡ true) ps
      → (q : ℕ) → is_in q ps ≡ true
      → f q ≡ true
  All-at f [] h q i = ground (arith, i)
  All-at f (p ∷ ps) h q i = ground (arith, h.0, i, All-at f ps h.1 q)
