-- ===== src/Consumer/Loop.antt =====
-- The loop over the polls of a batch.
use k2_market_data_platform.Base.{
  ◌≤◌, ◌<◌, ◌≡◌, refl, sym, ap, ◌∙◌, subst, true, Bool-cases, inl, inr, none, some, Option, List,
  [], ◌∷◌, ◌++◌, append_assoc, append-nil, length, length-append, ltb, ltb→lt, arith,
}
use k2_market_data_platform.DegradationManager.{DegradationLevel}
use k2_market_data_platform.Consumer.{
  Polled, quiet, end_of_partition, poll_error, message, Settings, Filling, take_poll, ends_batch,
  fill,
}
use k2_market_data_platform.Consumer.Polls.{
  Kept, kept_none, records, messages, Took, Kept-append, records-append, messages-append,
}
use k2_market_data_platform.Consumer.Turns.{Turn, take_poll-Turn}

module _ {V : Type 0} (s : Settings V) where
  Turn-Took :
      (f m g : Filling) (p : Polled V) (polls rest : List (Polled V))
      → Turn s f (records s.deserialize (p ∷ [])) (messages (p ∷ [])) m
      → length f.batch < s.batch_size
      → Took s m polls g rest
      → Took s f (p ∷ polls) g rest
  Turn-Took f m g p polls rest t room h = record {
    used = p ∷ h.used;
    kept = t.kept ++ h.kept;
    split = ap (λ ps. p ∷ ps) h.split;
    batch_is = h.batch_is ∙ ap (λ b. b ++ h.kept) t.batch_is ∙ append_assoc f.batch t.kept h.kept;
    of_records =
        subst (Kept s.tiers (t.kept ++ h.kept)) (sym (records-append s (p ∷ []) h.used))
          (Kept-append t.of_records h.of_records);
    delivered_is = omega (arith, h.delivered_is, t.delivered_is, messages-append (p ∷ []) h.used);
    consumed_is = omega (
      arith,
      h.consumed_is,
      t.consumed_is,
      length-append (records s.deserialize (p ∷ [])) (records s.deserialize h.used),
      ap length (records-append s (p ∷ []) h.used),
    );
    written_is = h.written_is ∙ t.written_is;
    fits = λ _.
        h.fits (omega (arith, ap length t.batch_is, length-append f.batch t.kept, t.short, room));
  }

  -- A batch that the loop filled has a record.
  abbrev pub IfSome : Option (Filling × List (Polled V)) → Type 0
  IfSome none = Unit
  IfSome (some (g, rest)) = 1 ≤ length g.batch

  ends_batch-some :
      (level : DegradationLevel) (f : Filling) (p : Polled V)
      → ends_batch s level f p ≡ true
      → 1 ≤ length f.batch
  unfolding ends_batch
  ends_batch-some level f p h = ground (arith, h)

  pub fill-IfSome :
      (level : DegradationLevel) (f : Filling) (polls : List (Polled V))
      → 1 ≤ s.batch_size
      → IfSome (fill s level f polls)
  unfolding fill
  fill-IfSome level f [] one = elim (Bool-cases (ltb (length f.batch) s.batch_size)) [
    | inl room ↦ rw (room, fill) tt
    | inr full ↦ rw (full, fill) (ground (arith, full, one))
  ]
  fill-IfSome level f (p ∷ polls) one = elim (Bool-cases (ltb (length f.batch) s.batch_size)) [
    | inr full ↦ rw (full, fill) (ground (arith, full, one))
    | inl room ↦ elim (Bool-cases (ends_batch s level f p)) [
      | inl over ↦ rw (room, over, fill) (ends_batch-some level f p over)
      | inr going ↦ rw (room, going, fill) (fill-IfSome level (take_poll s level f p) polls one)
    ]
  ]

module _ {V : Type 0} (s : Settings V) (level : DegradationLevel) where
  -- nothing in what was used
  stays :
      (f : Filling) (used polls rest : List (Polled V))
      → polls ≡ used ++ rest
      → records s.deserialize used ≡ []
      → messages used ≡ 0
      → Took s f polls f rest
  stays f used polls rest h none_there zero_there = record {
    used = used;
    kept = [];
    split = h;
    batch_is = sym (append-nil f.batch);
    of_records = subst (Kept s.tiers []) (sym none_there) kept_none;
    delivered_is = omega (arith, zero_there);
    consumed_is = omega (arith, ap length none_there);
    written_is = refl;
    fits = λ h. h;
  }

  ends_batch-stays :
      (f : Filling) (p : Polled V) (polls : List (Polled V))
      → ends_batch s level f p ≡ true
      → Took s f (p ∷ polls) f polls
  unfolding ends_batch
  ends_batch-stays f quiet polls h = stays f (quiet ∷ []) _ polls refl refl refl
  ends_batch-stays f end_of_partition polls h =
      stays f (end_of_partition ∷ []) _ polls refl refl refl
  ends_batch-stays f poll_error polls h = cc
  ends_batch-stays f (message v) polls h = cc

  abbrev IfTook : Filling → List (Polled V) → Option (Filling × List (Polled V)) → Type 0
  IfTook f polls none = Unit
  IfTook f polls (some (g, rest)) = Took s f polls g rest

  IfTook-cons :
      (f : Filling) (p : Polled V) (polls : List (Polled V))
      (o : Option (Filling × List (Polled V)))
      → length f.batch < s.batch_size
      → IfTook (take_poll s level f p) polls o
      → IfTook f (p ∷ polls) o
  IfTook-cons f p polls none room h = tt
  IfTook-cons f p polls (some (g, rest)) room h =
      Turn-Took s f _ g p polls rest (take_poll-Turn s level f p) room h

  fill-IfTook : (f : Filling) (polls : List (Polled V)) → IfTook f polls (fill s level f polls)
  unfolding fill
  fill-IfTook f [] = elim (Bool-cases (ltb (length f.batch) s.batch_size)) [
    | inl room ↦ rw (room, fill) tt
    | inr full ↦ rw (full, fill) (stays f [] [] [] refl refl refl)
  ]
  fill-IfTook f (p ∷ polls) = elim (Bool-cases (ltb (length f.batch) s.batch_size)) [
    | inr full ↦ rw (full, fill) (stays f [] _ (p ∷ polls) refl refl refl)
    | inl room ↦ elim (Bool-cases (ends_batch s level f p)) [
      | inl over ↦ rw (room, over, fill) (ends_batch-stays f p polls over)
      | inr going ↦
          rw (room, going, fill)
            (IfTook-cons f p polls (fill s level (take_poll s level f p) polls) (ltb→lt _ _ room)
              (fill-IfTook (take_poll s level f p) polls))
    ]
  ]

  -- What the loop has done when it ends.
  pub fill-Took :
      (f g : Filling) (polls rest : List (Polled V))
      → fill s level f polls ≡ some (g, rest)
      → Took s f polls g rest
  fill-Took f g polls rest h = subst (IfTook f polls) h (fill-IfTook f polls)
