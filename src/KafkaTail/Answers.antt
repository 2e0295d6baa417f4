-- ===== src/KafkaTail/Answers.antt =====
-- What a query of some messages is to answer, said without the code's filter.
use k2_market_data_platform.Base.{
  ℕ, ◌≤◌, ◌<◌, ◌≡◌, ◌≢◌, ◌⊎◌, inl, inr, String, true, false, Bool-cases, List, [], ◌∷◌, ◌++◌, All,
  ltb, leb, ltb→lt, arith,
}
use k2_market_data_platform.Base.Eq.{◌=?◌, string_eq, beq_eq}
use k2_market_data_platform.KafkaTail.{TailMessage, is_asked, select}

-- of another exchange, or out of the range of time
abbrev pub Outside : {D : Type 0} → String → ℕ → ℕ → TailMessage D → Type 0
Outside exchange start_time end_time m =
    (m.exchange ≢ exchange) ⊎ (m.timestamp < start_time) ⊎ (end_time < m.timestamp)

-- The contents of the messages of an exchange whose times are in a range, both ends in it, in the
-- order that the messages stand in.
pub data Answers {D : Type 0} (exchange : String) (start_time end_time : ℕ)
    : List (TailMessage D) → List D → Type 0 where
  no_more : Answers exchange start_time end_time [] []
  answered :
      (m : TailMessage D) {ms : List (TailMessage D)} {out : List D}
      → m.exchange ≡ exchange
      → start_time ≤ m.timestamp
      → m.timestamp ≤ end_time
      → Answers exchange start_time end_time ms out
      → Answers exchange start_time end_time (m ∷ ms) (m.message_data ∷ out)
  passed_over :
      (m : TailMessage D) {ms : List (TailMessage D)} {out : List D}
      → Outside exchange start_time end_time m
      → Answers exchange start_time end_time ms out
      → Answers exchange start_time end_time (m ∷ ms) out

module _ {D : Type 0} (exchange : String) (start_time end_time : ℕ) where
  not_asked :
      (m : TailMessage D)
      → is_asked exchange start_time end_time m ≡ false
      → Outside exchange start_time end_time m
  not_asked m h = elim (Bool-cases (m.exchange =? exchange)) [
    | inl same ↦ elim (Bool-cases (leb start_time m.timestamp)) [
      | inl late ↦ inr (inr (ground (arith, h, same, late)))
      | inr early ↦ inr (inl (ground (arith, early)))
    ]
    | inr other ↦ inl (λ e. ground (arith, other, e, (string_eq.beq_iff m.exchange exchange).1 e))
  ]

  asked :
      (m : TailMessage D)
      → is_asked exchange start_time end_time m ≡ true
      → (m.exchange ≡ exchange) × (start_time ≤ m.timestamp) × (m.timestamp ≤ end_time)
  asked m h = ground (arith, h, beq_eq m.exchange exchange)

  pub select-Answers :
      (messages : List (TailMessage D))
      → Answers exchange start_time end_time messages (select exchange start_time end_time messages)
  unfolding select
  select-Answers [] = no_more
  select-Answers (m ∷ messages) =
      let rest = select-Answers messages in
      elim (Bool-cases (is_asked exchange start_time end_time m)) [
        | inl yes_asked ↦
            let (same, late, early) = asked m yes_asked in
            rw yes_asked (answered m same late early rest)
        | inr unasked ↦ rw unasked (passed_over m (not_asked m unasked) rest)
      ]

  -- messages from before the range add nothing
  pub old-Answers :
      (old : List (TailMessage D)) {messages : List (TailMessage D)} {out : List D}
      → All (λ m. ltb m.timestamp start_time ≡ true) old
      → Answers exchange start_time end_time messages out
      → Answers exchange start_time end_time (old ++ messages) out
  old-Answers [] h a = a
  old-Answers (m ∷ old) h a =
      passed_over m (inr (inl (ltb→lt m.timestamp start_time h.0))) (old-Answers old h.1 a)
