-- ===== src/Consumer/Delivery.antt =====
-- Where the records of the messages that Kafka delivered end, and what the committed position says.
use k2_market_data_platform.Base.{
  ◌≤◌, ◌≡◌, refl, sym, subst, Bool, true, false, Bool-cases, inl, inr, none, some, Option, List, [],
  ◌∷◌, ◌++◌, append-nil, length, arith,
}
use k2_market_data_platform.DegradationManager.{
  DegradationLevel, DegradationManager, check_and_degrade,
}
use k2_market_data_platform.Consumer.{
  MarketRecord, Polled, Settings, Filling, Round, Attempt, written, transient, permanent,
  unexpected, Consumer, Result, returned, raised, write_batch_with_retry, after_write, write_batch,
  filled, start_batch, at_limit, after_fill, consume_batch, continued, consume_batches, fill,
}
use k2_market_data_platform.Consumer.Polls.{Took}
use k2_market_data_platform.Consumer.Loop.{fill-Took, IfSome, fill-IfSome}
use k2_market_data_platform.Consumer.Routed.{
  routed_none, Kept-table, Kept-dlq, Delivery, none-Delivery, Delivery-trans,
}

module _ {V : Type 0} (s : Settings V) where
  abbrev Outcome : Consumer → List (Polled V) → Result → List (Polled V) → Type 0
  Outcome c polls (returned d) rest = Delivery s c polls d rest [] [] × (d.committed ≡ d.delivered)
  Outcome c polls (raised d) rest =
      (left : List (Polled V)) × (table : List MarketRecord) × (dlq : List MarketRecord) × Delivery
        s c polls d left table dlq

  -- What a batch that raises leaves: nothing is committed.
  raised-Outcome :
      (c d : Consumer) (polls rest : List (Polled V)) (table dlq : List MarketRecord)
      → d.table ≡ c.table ++ table
      → d.dlq ≡ c.dlq ++ dlq
      → d.committed ≡ c.committed
      → Outcome c polls (raised d) rest
  raised-Outcome c d polls rest table dlq t q same = (
    polls,
    table,
    dlq,
    record {
      used = [];
      tabled = [];
      dead = [];
      split = refl;
      table_is = grind (arith, t, append-nil);
      dlq_is = grind (arith, q, append-nil);
      routed = routed_none;
      committed_is = omega (arith, same);
    },
  )

  module _ (c : Consumer) (level : DegradationLevel) (manager : DegradationManager) (f : Filling)
      (polls rest : List (Polled V)) (base : c.committed ≡ c.delivered)
      (took : Took s (start_batch c) polls f rest) where
    after_write-Outcome :
        (dlq_writes commits : Bool) (a : Attempt)
        → Outcome c polls (after_write dlq_writes commits (filled c manager f) f.batch a) rest
    after_write-Outcome dlq_writes true written = (
      record {
        used = took.used;
        tabled = took.kept;
        dead = [];
        split = took.split;
        table_is = grind (arith, took.batch_is, append-nil);
        dlq_is = grind (arith, append-nil);
        routed = Kept-table took.of_records;
        committed_is = omega (arith, took.delivered_is, base);
      },
      refl,
    )
    after_write-Outcome dlq_writes false written =
        raised-Outcome c _ polls rest f.batch [] refl (sym (append-nil c.dlq)) refl
    after_write-Outcome true true permanent = (
      record {
        used = took.used;
        tabled = [];
        dead = took.kept;
        split = took.split;
        table_is = grind (arith, append-nil);
        dlq_is = grind (arith, took.batch_is, append-nil);
        routed = Kept-dlq took.of_records;
        committed_is = omega (arith, took.delivered_is, base);
      },
      refl,
    )
    after_write-Outcome true false permanent =
        raised-Outcome c _ polls rest [] f.batch (sym (append-nil c.table)) refl refl
    after_write-Outcome false commits permanent =
        raised-Outcome c _ polls rest [] [] (sym (append-nil c.table)) (sym (append-nil c.dlq)) refl
    after_write-Outcome dlq_writes commits transient =
        raised-Outcome c _ polls rest [] [] (sym (append-nil c.table)) (sym (append-nil c.dlq)) refl
    after_write-Outcome dlq_writes commits unexpected =
        raised-Outcome c _ polls rest [] [] (sym (append-nil c.table)) (sym (append-nil c.dlq)) refl

    write_batch-Outcome :
        (r : Round) (batch : List MarketRecord)
        → f.batch ≡ batch
        → 1 ≤ length batch
        → Outcome c polls
            (write_batch r.dlq_writes r.commits r.attempts (filled c manager f) batch)
            rest
    write_batch-Outcome r [] same some_there = absurd (omega (arith, some_there))
    write_batch-Outcome r (b ∷ bs) same some_there =
        subst
          (λ batch.
            Outcome c polls
              (after_write r.dlq_writes r.commits (filled c manager f) batch
                (write_batch_with_retry r.attempts))
              rest)
          same (after_write-Outcome r.dlq_writes r.commits _)

  abbrev IfOutcome : Consumer → List (Polled V) → Option (Result × List (Polled V)) → Type 0
  IfOutcome c polls none = Unit
  IfOutcome c polls (some (result, rest)) = Outcome c polls result rest

  module _ (one : 1 ≤ s.batch_size) where
    consume_batch-IfOutcome :
        (c : Consumer) (polls : List (Polled V)) (r : Round)
        → c.committed ≡ c.delivered
        → IfOutcome c polls (consume_batch s c polls r)
    unfolding consume_batch
    consume_batch-IfOutcome c polls r base =
        by_fill (fill s manager.level (start_batch c) polls) refl
      where
        manager : DegradationManager
        manager = check_and_degrade s.thresholds c.manager r.check

        by_fill :
            (o : Option (Filling × List (Polled V)))
            → fill s manager.level (start_batch c) polls ≡ o
            → IfOutcome c polls (after_fill s c manager r o)
        by_fill none e = tt
        by_fill (some (f, rest)) e =
            write_batch-Outcome c manager.level manager f polls rest base
              (fill-Took s manager.level (start_batch c) f polls rest e) r f.batch refl
              (subst (IfSome s) e (fill-IfSome s manager.level (start_batch c) polls one))

    Outcome-trans :
        (c m : Consumer) (polls mid rest : List (Polled V)) (result : Result)
        → Delivery s c polls m mid [] []
        → Outcome m mid result rest
        → Outcome c polls result rest
    Outcome-trans c m polls mid rest (returned d) h k =
        (Delivery-trans s c m d polls mid rest [] [] h k.0, k.1)
    Outcome-trans c m polls mid rest (raised d) h k =
        (k.0, k.1, k.2, Delivery-trans s c m d polls mid k.0 k.1 k.2 h k.3)

    IfOutcome-trans :
        (c m : Consumer) (polls mid : List (Polled V)) (o : Option (Result × List (Polled V)))
        → Delivery s c polls m mid [] []
        → IfOutcome m mid o
        → IfOutcome c polls o
    IfOutcome-trans c m polls mid none h k = tt
    IfOutcome-trans c m polls mid (some (result, rest)) h k =
        Outcome-trans c m polls mid rest result h k

    continued-IfOutcome :
        (c : Consumer) (polls : List (Polled V)) (o : Option (Result × List (Polled V)))
        (next : Consumer → List (Polled V) → Option (Result × List (Polled V)))
        → ((m : Consumer) (mid : List (Polled V))
            → m.committed ≡ m.delivered
            → IfOutcome m mid (next m mid))
        → IfOutcome c polls o
        → IfOutcome c polls (continued s next o)
    continued-IfOutcome c polls none next h k = tt
    continued-IfOutcome c polls (some (raised d, rest)) next h k = k
    continued-IfOutcome c polls (some (returned m, mid)) next h k =
        IfOutcome-trans c m polls mid (next m mid) k.0 (h m mid k.1)

    consume_batches-IfOutcome :
        (rounds : List Round) (c : Consumer) (polls : List (Polled V))
        → c.committed ≡ c.delivered
        → IfOutcome c polls (consume_batches s c polls rounds)
    unfolding consume_batches
    consume_batches-IfOutcome [] c polls base = (none-Delivery s c polls, base)
    consume_batches-IfOutcome (r ∷ rounds) c polls base =
        elim (Bool-cases (at_limit s.max_messages c.stats.messages_consumed)) [
          | inl over ↦ rw (over, consume_batches) (none-Delivery s c polls, base)
          | inr more ↦
              rw (more, consume_batches)
                (continued-IfOutcome c polls (consume_batch s c polls r)
                  (λ next rest. consume_batches s next rest rounds)
                  (consume_batches-IfOutcome rounds) (consume_batch-IfOutcome c polls r base))
        ]

    -- Where the loop of a consumer returns, whose whole delivery was committed before it, the
    -- messages of the polls that it used are committed, and no others have been delivered; their
    -- records, in order, are the new rows of the table and of the dead letter queue, or belong to a
    -- symbol that may be shed. Batches are of one record or more.
    pub consume_batches-delivers :
        (c d : Consumer) (polls rest : List (Polled V)) (rounds : List Round)
        → c.committed ≡ c.delivered
        → consume_batches s c polls rounds ≡ some (returned d, rest)
        → Delivery s c polls d rest [] [] × (d.committed ≡ d.delivered)
    consume_batches-delivers c d polls rest rounds base h =
        subst (IfOutcome c polls) h (consume_batches-IfOutcome rounds c polls base)

    -- Where the loop of a consumer raises, whose whole delivery was committed before it, the record
    -- of every message that is committed by then is, in order, in the new rows of the table or of
    -- the dead letter queue, or belongs to a symbol that may be shed. Behind these rows there may
    -- be others. Batches are of one record or more.
    pub consume_batches-raises :
        (c d : Consumer) (polls rest : List (Polled V)) (rounds : List Round)
        → c.committed ≡ c.delivered
        → consume_batches s c polls rounds ≡ some (raised d, rest)
        → (left : List (Polled V)) × (table : List MarketRecord) × (dlq : List MarketRecord)
          × Delivery s c polls d left table dlq
    consume_batches-raises c d polls rest rounds base h =
        subst (IfOutcome c polls) h (consume_batches-IfOutcome rounds c polls base)
