-- ===== src/Parity/Finished.antt =====
-- What a topic's reading holds when it is complete, and that quiet polls end it.
use k2_market_data_platform.Base.{
  ℕ, ◌+◌, ◌≡◌, refl, sym, ap, ◌∙◌, true, false, Option, some, List, [], ◌∷◌, ◌++◌, length,
  length-append, append_assoc, append-nil, All, Bool-cases, inl, inr, arith,
}
use k2_market_data_platform.Base.Int.{ℤ}
use k2_market_data_platform.Base.Dict.{Dict}
use k2_market_data_platform.Parity.{Norm}
use k2_market_data_platform.Parity.Window.{
  Poll, Reading, complete, Loop, Step, go_on, stop, continued, on_poll, is_none_left, consume,
  consume_window, from_assignment, assigned, begin_loop,
}
use k2_market_data_platform.Parity.Reading.{
  true-false, accepted, is_reached, is_complete, Took, on_poll-Took, accepted-cons, reached_later,
  All-at,
}

module _ {V : Type 0} (decode : V → Option Norm) (highs : Dict ℕ ℤ) (end_ms : ℤ) where
  -- what a reading has done when it is complete
  abbrev Read : Loop → List (Poll V) → List Norm → ℕ → Type 0
  Read st polls records consumed =
      (pre : List (Poll V)) × (post : List (Poll V)) × (polls ≡ pre ++ post)
      × (records ≡ st.records ++ accepted decode highs end_ms pre)
      × (consumed ≡ st.consumed + length (accepted decode highs end_ms pre))
      × All (λ q. is_reached decode highs end_ms q pre ≡ true) st.pending

  complete_eq : (r s : List Norm) (m n : ℕ) → complete r m ≡ complete s n → (r ≡ s) × (m ≡ n)
  complete_eq r s m n e = ground (arith, e)

  none_left :
      (st : Loop) (polls : List (Poll V)) (records : List Norm) (consumed : ℕ)
      → is_none_left st.pending ≡ true
      → complete st.records st.consumed ≡ complete records consumed
      → Read st polls records consumed
  unfolding accepted
  none_left st polls records consumed over e =
      let (r, c) = complete_eq st.records records st.consumed consumed e in
      (
        [],
        polls,
        refl,
        sym r ∙ sym (append-nil st.records),
        omega (arith, c),
        empty st.pending over,
      )
    where
      empty :
          (ps : List ℕ)
          → is_none_left ps ≡ true
          → All (λ q. is_reached decode highs end_ms q [] ≡ true) ps
      empty [] h = tt
      empty (p ∷ ps) h = ground (arith, h)

  Read-cons :
      (st next : Loop) (p : Poll V) (polls : List (Poll V)) (records : List Norm) (consumed : ℕ)
      → Took decode highs end_ms st (p ∷ []) (go_on next)
      → Read next polls records consumed
      → Read st (p ∷ polls) records consumed
  Read-cons st next p polls records consumed (r, c, h) (pre, post, e, r', c', h') = (
    p ∷ pre,
    post,
    ap (λ xs. p ∷ xs) e,
    r'
        ∙ ap (λ xs. xs ++ accepted decode highs end_ms pre) r
        ∙ append_assoc st.records (accepted decode highs end_ms (p ∷ []))
            (accepted decode highs end_ms pre)
        ∙ ap (λ xs. st.records ++ xs) (sym (accepted-cons decode highs end_ms p pre)),
    omega (
      arith,
      c,
      c',
      length-append (accepted decode highs end_ms (p ∷ [])) (accepted decode highs end_ms pre),
      ap (λ xs. length xs) (accepted-cons decode highs end_ms p pre),
    ),
    reached_later decode highs end_ms p pre st.pending next.pending h
        (All-at decode highs end_ms (λ q. is_reached decode highs end_ms q pre) next.pending h'),
  )

  -- after one poll
  stepped :
      (rest : Loop → Reading) (st : Loop) (p : Poll V) (polls : List (Poll V)) (records : List Norm)
      (consumed : ℕ)
      → ((next : Loop) → rest next ≡ complete records consumed → Read next polls records consumed)
      → (s : Step) → Took decode highs end_ms st (p ∷ []) s
      → continued rest s ≡ complete records consumed
      → Read st (p ∷ polls) records consumed
  stepped rest st p polls records consumed read (go_on next) t h =
      Read-cons st next p polls records consumed t (read next h)
  stepped rest st p polls records consumed read (stop reading) t h =
      elim (true-false (sym (ap (is_complete decode highs end_ms) h) ∙ t)) [ ]

  consume-Read :
      (st : Loop) (polls : List (Poll V)) (records : List Norm) (consumed : ℕ)
      → consume decode highs end_ms st polls ≡ complete records consumed
      → Read st polls records consumed
  unfolding consume
  consume-Read st [] records consumed e = elim (Bool-cases (is_none_left st.pending)) [
    | inl over ↦ none_left st [] records consumed over (ground (arith, e, over))
    | inr left ↦ ground (arith, e, left)
  ]
  consume-Read st (p ∷ polls) records consumed e = elim (Bool-cases (is_none_left st.pending)) [
    | inl over ↦ none_left st (p ∷ polls) records consumed over (ground (arith, e, over))
    | inr left ↦
        stepped (λ next. consume decode highs end_ms next polls) st p polls records consumed
          (λ next h. consume-Read next polls records consumed h) (on_poll decode highs end_ms st p)
          (on_poll-Took decode highs end_ms st p)
          (ap
              (λ b. elim b [
                | true ↦ complete st.records st.consumed
                | false ↦
                    continued (λ next. consume decode highs end_ms next polls)
                      (on_poll decode highs end_ms st p)
              ])
              (sym left)
            ∙ e)
  ]

  -- A reading that is complete holds the records of an initial run of its polls, in their order: of each
  -- message that is not past the window's end and has a value, its normalised record. Their number is the
  -- count. In that run each assigned partition showed a message past the end, or its last one below the
  -- high watermark.
  pub consume_window-complete :
      (starts : List (ℕ × ℤ)) (polls : List (Poll V)) (records : List Norm) (consumed : ℕ)
      → consume_window decode highs end_ms (some starts) polls ≡ complete records consumed
      → (pre : List (Poll V)) × (post : List (Poll V)) × (polls ≡ pre ++ post)
        × (records ≡ accepted decode highs end_ms pre)
        × (consumed ≡ length records)
        × All (λ q. is_reached decode highs end_ms q pre ≡ true) (assigned starts highs)
  unfolding consume_window
  consume_window-complete starts polls records consumed e = from (assigned starts highs) e
    where
      from :
          (ps : List ℕ)
          → from_assignment decode highs end_ms polls ps ≡ complete records consumed
          → (pre : List (Poll V)) × (post : List (Poll V)) × (polls ≡ pre ++ post)
            × (records ≡ accepted decode highs end_ms pre)
            × (consumed ≡ length records)
            × All (λ q. is_reached decode highs end_ms q pre ≡ true) ps
      from [] h = elim (true-false (sym (ap (is_complete decode highs end_ms) h))) [ ]
      from (p ∷ ps) h =
          let (pre, post, e, r, c, d) =
            consume-Read (begin_loop (p ∷ ps)) polls records consumed h in
          (pre, post, e, r, omega (arith, c, ap (λ xs. length xs) r), d)
