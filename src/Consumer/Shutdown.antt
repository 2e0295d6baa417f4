-- ===== src/Consumer/Shutdown.antt =====
-- What a run leaves that a batch ended by raising: the shutdown commits.
use k2_market_data_platform.Base.{
  ℕ, ◌+◌, ◌≤◌, ◌≡◌, refl, sym, ap, ◌∙◌, subst, Bool, true, false, some, List, [], ◌∷◌, ◌++◌, length,
  arith,
}
use k2_market_data_platform.DegradationManager.{check_and_degrade}
use k2_market_data_platform.Consumer.{
  MarketRecord, Polled, Settings, Filling, Round, Attempt, transient, Consumer, raised, retry,
  write_batch_with_retry, write_batch, filled, after_write, count_error, start_batch, at_limit,
  shutdown, consume_batch, consume_batches, run, fill,
}
use k2_market_data_platform.Consumer.Polls.{Kept, records, messages}
use k2_market_data_platform.Consumer.Loop.{fill-Took}

-- The first attempt that does not fail for a transient error decides, among three.
retry-decides :
    (attempts : ℕ → Attempt)
    → (attempts 0 ≡ transient)
    → (attempts 1 ≡ transient)
    → write_batch_with_retry attempts ≡ attempts 2
unfolding retry
retry-decides attempts e0 e1 = rw (e0, retry, e1) refl

write_batch-fails :
    (dlq_writes commits : Bool) (attempts : ℕ → Attempt) (c : Consumer) (batch : List MarketRecord)
    → 1 ≤ length batch
    → write_batch_with_retry attempts ≡ transient
    → write_batch dlq_writes commits attempts c batch
      ≡ raised (record c { stats = count_error c.stats })
write_batch-fails dlq_writes commits attempts c [] some_there h = absurd (omega (arith, some_there))
write_batch-fails dlq_writes commits attempts c (b ∷ bs) some_there h =
    ap (after_write dlq_writes commits c (b ∷ bs)) h

module _ {V : Type 0} (s : Settings V) where
  -- Where a run's first batch has a record and fails in three attempts for transient errors, and
  -- the commit of the shutdown succeeds, the run ends with the messages of this batch committed,
  -- and with the table and the dead letter queue as they were: the batch, which is what was kept of
  -- the records of these messages, is lost. The limit of messages is not reached before.
  pub run-loses :
      (c : Consumer) (f : Filling) (polls rest : List (Polled V)) (r : Round) (rounds : List Round)
      → at_limit s.max_messages c.stats.messages_consumed ≡ false
      → fill s (check_and_degrade s.thresholds c.manager r.check).level (start_batch c) polls
        ≡ some (f, rest)
      → 1 ≤ length f.batch
      → (r.attempts 0 ≡ transient) × (r.attempts 1 ≡ transient) × (r.attempts 2 ≡ transient)
      → (d : Consumer) × (used : List (Polled V)) × (run s c polls (r ∷ rounds) true ≡ some d)
        × (polls ≡ used ++ rest)
        × (d.committed ≡ c.delivered + messages used)
        × Kept s.tiers f.batch (records s.deserialize used)
        × (d.table ≡ c.table)
        × (d.dlq ≡ c.dlq)
  unfolding run consume_batches consume_batch
  run-loses c f polls rest r rounds more e some_there failing =
      let manager = check_and_degrade s.thresholds c.manager r.check in
      let took = fill-Took s _ (start_batch c) f polls rest e in
      (
        shutdown true (record (filled c manager f) { stats = count_error f.stats }),
        took.used,
        rw
            (
              more,
              consume_batches,
              e,
              write_batch-fails r.dlq_writes r.commits r.attempts (filled c manager f) f.batch
                  some_there (retry-decides r.attempts failing.0 failing.1 ∙ failing.2),
            )
            refl,
        took.split,
        took.delivered_is,
        subst (λ b. Kept s.tiers b (records s.deserialize took.used)) (sym took.batch_is)
            took.of_records,
        refl,
        refl,
      )
