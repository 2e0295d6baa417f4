-- ===== src/SequenceTracker/Watermark.antt =====
-- What a tracker knows of a symbol after some messages, and what it reports.
use mathlib.Core.Option
use k2_market_data_platform.Base.{
  ℕ, suc, ◌+◌, ◌≡◌, ◌≢◌, refl, ◌∙◌, ap, String, Bool, true, false, Bool-cases, inl, inr, sym, subst,
  Option, none, some, List, [], ◌∷◌, All, if◌then◌else◌, arith,
}
use k2_market_data_platform.Base.Int.{ℤ, pos, ◌≤ℤ◌, max_ℤ, +ℤ_parts}
use k2_market_data_platform.Base.Eq.{◌=?◌, string_eq, pair_eq}
use k2_market_data_platform.Base.Dict.{lookup, lookup-insert}
use k2_market_data_platform.SequenceTracker.{
  SequenceState, session_reset, Thresholds, Message, Tracker, key_of, is_session_reset, first_state,
  jumped, judge, classify, check_sequence, track,
}

-- no sequence number is negative
abbrev pub NonNegative : List Message → Type 0
NonNegative messages = All (λ m. pos 0 ≤ℤ m.sequence) messages

abbrev pub KnownNonNegative : Option SequenceState → Type 0
KnownNonNegative none = Unit
KnownNonNegative (some st) = pos 0 ≤ℤ st.last_sequence

module _ (s : Thresholds) where
  judge-not_reset :
      (st : SequenceState) (m : Message)
      → pos 0 ≤ℤ st.last_sequence
      → (judge s st m).0 ≢ session_reset
  unfolding judge jumped is_session_reset
  judge-not_reset st m h =
      ground (arith, h, +ℤ_parts m.sequence m.sequence, +ℤ_parts st.last_sequence (pos 1))

  judge-last_sequence :
      (st : SequenceState) (m : Message)
      → pos 0 ≤ℤ st.last_sequence
      → (judge s st m).1.last_sequence ≡ max_ℤ st.last_sequence m.sequence
  unfolding judge jumped max_ℤ is_session_reset
  judge-last_sequence st m h =
      ground (arith, h, +ℤ_parts m.sequence m.sequence, +ℤ_parts st.last_sequence (pos 1))

  judge-received :
      (st : SequenceState) (m : Message)
      → (judge s st m).1.total_messages + (judge s st m).1.out_of_order_count
        ≡ suc (st.total_messages + st.out_of_order_count)
  unfolding judge jumped
  judge-received st m = ground (arith, +ℤ_parts st.last_sequence (pos 1))

-- the highest of what is known and one more
abbrev pub raised : Option ℤ → ℤ → ℤ
raised none n = n
raised (some h) n = max_ℤ h n

abbrev pub highest : Option SequenceState → Option ℤ
highest o = Option.map (λ st. st.last_sequence) o

abbrev pub counted : Option SequenceState → ℕ
counted none = 0
counted (some st) = st.total_messages + st.out_of_order_count

-- what the messages of one symbol come to, from what is known of it
module _ (k : String × String) where
  -- the highest sequence number
  abbrev pub watermark : Option ℤ → List Message → Option ℤ
  watermark w [] = w
  watermark w (m ∷ messages) =
      watermark (if key_of m =? k then some (raised w m.sequence) else w) messages

  -- the number of messages
  abbrev pub received : ℕ → List Message → ℕ
  received n [] = n
  received n (m ∷ messages) = received (if key_of m =? k then suc n else n) messages

  module _ (s : Thresholds) where
    at_key :
        (t : Tracker) (m : Message)
        → key_of m ≡ k
        → some (classify s (lookup (key_of m) t) m).1 ≡ some (classify s (lookup k t) m).1
    at_key t m e = ap (λ j. some (classify s (lookup j t) m).1) e

    lookup-check_sequence :
        (t : Tracker) (m : Message)
        → lookup k (check_sequence s t m).1
          ≡ (if key_of m =? k then some (classify s (lookup k t) m).1 else lookup k t)
    unfolding check_sequence
    lookup-check_sequence t m = elim (Bool-cases (key_of m =? k)) [
      | inl h ↦
          lookup-insert (key_of m) k (classify s (lookup (key_of m) t) m).1 t
          ∙ rw h (at_key t m ((pair_eq.beq_iff (key_of m) k).0 h))
      | inr h ↦ lookup-insert (key_of m) k (classify s (lookup (key_of m) t) m).1 t ∙ rw h refl
    ]

    classify-counted :
        (o : Option SequenceState) (m : Message)
        → counted (some (classify s o m).1) ≡ suc (counted o)
    unfolding classify first_state
    classify-counted none m = refl
    classify-counted (some st) m = judge-received s st m

    counted_if :
        (b : Bool) (o : Option SequenceState) (m : Message)
        → counted (if b then some (classify s o m).1 else o)
          ≡ (if b then suc (counted o) else counted o)
    counted_if true o m = classify-counted o m
    counted_if false o m = refl

    check_sequence-counted :
        (t : Tracker) (m : Message)
        → counted (lookup k (check_sequence s t m).1)
          ≡ (if key_of m =? k then suc (counted (lookup k t)) else counted (lookup k t))
    check_sequence-counted t m =
        ap counted (lookup-check_sequence t m) ∙ counted_if (key_of m =? k) (lookup k t) m

    -- For every symbol, the in-order and the out-of-order messages that its state counts are together
    -- the messages that came for it, after any messages in any order.
    pub track-received :
        (t : Tracker) (messages : List Message)
        → counted (lookup k (track s t messages).1) ≡ received (counted (lookup k t)) messages
    unfolding track
    track-received t [] = refl
    track-received t (m ∷ messages) =
        track-received (check_sequence s t m).1 messages
        ∙ ap (λ n. received n messages) (check_sequence-counted t m)

    classify-highest :
        (o : Option SequenceState) (m : Message)
        → KnownNonNegative o
        → (classify s o m).1.last_sequence ≡ raised (highest o) m.sequence
    unfolding classify first_state
    classify-highest none m h = refl
    classify-highest (some st) m h = judge-last_sequence s st m h

    highest_if :
        (b : Bool) (o : Option SequenceState) (m : Message)
        → KnownNonNegative o
        → highest (if b then some (classify s o m).1 else o)
          ≡ (if b then some (raised (highest o) m.sequence) else highest o)
    highest_if true o m h = ap some (classify-highest o m h)
    highest_if false o m h = refl

    raised_le : (w : Option ℤ) (n : ℤ) → pos 0 ≤ℤ n → pos 0 ≤ℤ raised w n
    unfolding max_ℤ
    raised_le none n h = h
    raised_le (some x) n h = ground (arith, h)

    -- what is known stays non-negative
    known_after :
        (b : Bool) (o : Option SequenceState) (m : Message)
        → KnownNonNegative o
        → pos 0 ≤ℤ m.sequence
        → KnownNonNegative (if b then some (classify s o m).1 else o)
    known_after false o m h n = h
    known_after true o m h n =
        subst (λ z. pos 0 ≤ℤ z) (sym (classify-highest o m h)) (raised_le (highest o) m.sequence n)

    pub check_sequence-known :
        (t : Tracker) (m : Message)
        → KnownNonNegative (lookup k t)
        → pos 0 ≤ℤ m.sequence
        → KnownNonNegative (lookup k (check_sequence s t m).1)
    check_sequence-known t m h n =
        subst KnownNonNegative (sym (lookup-check_sequence t m))
          (known_after (key_of m =? k) (lookup k t) m h n)

    -- For every symbol, the sequence number that its state holds is the highest that came for it,
    -- after any messages in any order whose sequence numbers are not negative.
    pub track-watermark :
        (t : Tracker) (messages : List Message)
        → KnownNonNegative (lookup k t)
        → NonNegative messages
        → highest (lookup k (track s t messages).1) ≡ watermark (highest (lookup k t)) messages
    unfolding track
    track-watermark t [] h n = refl
    track-watermark t (m ∷ messages) h n =
        track-watermark (check_sequence s t m).1 messages (check_sequence-known t m h n.0) n.1
        ∙ ap (λ w. watermark w messages)
            (ap highest (lookup-check_sequence t m) ∙ highest_if (key_of m =? k) (lookup k t) m h)

module _ (s : Thresholds) where
  check_sequence-not_reset :
      (t : Tracker) (o : Option SequenceState) (m : Message)
      → KnownNonNegative o
      → (classify s o m).0 ≢ session_reset
  unfolding classify
  check_sequence-not_reset t none m h = λ e. ground (arith, e)
  check_sequence-not_reset t (some st) m h = judge-not_reset s st m h

  -- No message is reported as a session reset, however far its sequence number falls and however
  -- late it comes, as long as no sequence number, known or arriving, is negative.
  pub track-not_reset :
      (t : Tracker) (messages : List Message)
      → ((k : String × String) → KnownNonNegative (lookup k t))
      → NonNegative messages
      → All (λ e. e ≢ session_reset) (track s t messages).0
  unfolding track check_sequence
  track-not_reset t [] h n = tt
  track-not_reset t (m ∷ messages) h n = (
    check_sequence-not_reset t (lookup (key_of m) t) m (h (key_of m)),
    track-not_reset (check_sequence s t m).1 messages (λ k. check_sequence-known k s t m (h k) n.0)
        n.1,
  )
