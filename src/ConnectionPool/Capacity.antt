-- ===== src/ConnectionPool/Capacity.antt =====
-- What holds of a pool however its threads interleave.
use k2_market_data_platform.Base.{
  ℕ, suc, ◌+◌, ◌-◌, ◌&&◌, ltb, ◌≤◌, ◌≡◌, refl, sym, ap, subst, max, true, false, Option, none, some,
  List, [], ◌∷◌, length, Bool-cases, inl, inr, ◌==◌, arith,
}
use k2_market_data_platform.ConnectionPool.{
  ConnectionPool, fresh_pool, contains, wait, mark_active, create, pop_or_create, take_connection,
  give_back, signal, World, Event, waits, takes, gives, signals, after_wait, after_take, is_new,
  step, run, begin_world,
}
use k2_market_data_platform.ConnectionPool.Members.{
  count, count-contains, count-absent, length-discard, count-discard, add_new,
}

module _ (size : ℕ) where
  -- Every permit of the semaphore is free, with a thread or lost to an error; every connection stands among
  -- the free ones or among the active ones, once.
  pub record IsSound (w : World) : Type 0 where
    pub permits :
        w.pool.semaphore + w.entering + length w.pool.active_connections + w.leaving + w.failed
        ≡ size
    pub connections :
        length w.pool.all_connections ≡ length w.pool.connections + length w.pool.active_connections
    pub created : length w.pool.all_connections ≤ size
    pub peak : w.pool.peak_utilization ≤ size
    pub once : (c : ℕ) → count c w.pool.all_connections ≤ 1
    pub placed :
        (c : ℕ)
        → count c w.pool.all_connections
          ≡ count c w.pool.connections + count c w.pool.active_connections

  fresh-IsSound : IsSound (begin_world size)
  unfolding fresh_pool
  fresh-IsSound = record {
    permits = omega arith;
    connections = omega arith;
    created = omega arith;
    peak = omega arith;
    once = λ c. omega arith;
    placed = λ c. omega arith;
  }

  -- a connection that is not active is marked
  mark_active_new :
      (c : ℕ) (p : ConnectionPool)
      → count c p.active_connections ≡ 0
      → mark_active c p ≡ record p {
        active_connections = c ∷ p.active_connections;
        peak_utilization = max p.peak_utilization (suc (length p.active_connections));
      }
  unfolding mark_active
  mark_active_new c p h =
      ap
        (λ ds. record p {
          active_connections = ds;
          peak_utilization = max p.peak_utilization (length ds);
        })
        (add_new c p.active_connections h)

  popped-IsSound :
      (w : World) (n c : ℕ) (rest : List ℕ)
      → IsSound w
      → w.entering ≡ suc n
      → w.pool.connections ≡ c ∷ rest
      → IsSound (after_take w n (pop_or_create none w.pool (c ∷ rest)))
  popped-IsSound w n c rest h e cs =
      let q = record (w.pool) { connections = rest } in
      subst (λ p. IsSound (record w { pool = p; entering = n })) (sym (mark_active_new c q absent))
        (record {
          permits = omega (arith, h.permits, e);
          connections = omega (arith, h.connections, ap (λ xs. length xs) cs);
          created = h.created;
          peak = omega (arith, h.peak, h.permits, e);
          once = h.once;
          placed = λ j. omega (arith, h.placed j, ap (λ xs. count j xs) cs);
        })
    where
      absent : count c w.pool.active_connections ≡ 0
      absent = ground (arith, h.once c, h.placed c, ap (λ xs. count c xs) cs)

  created-IsSound :
      (w : World) (n c : ℕ)
      → IsSound w
      → w.entering ≡ suc n
      → w.pool.connections ≡ []
      → contains c w.pool.all_connections ≡ false
      → IsSound (after_take w n (create (some c) w.pool))
  unfolding create
  created-IsSound w n c h e cs new =
      let q = record (w.pool) { all_connections = c ∷ w.pool.all_connections } in
      subst (λ p. IsSound (record w { pool = p; entering = n })) (sym (mark_active_new c q absent))
        (record {
          permits = omega (arith, h.permits, e);
          connections = omega (arith, h.connections);
          created = omega (arith, h.connections, h.permits, e, ap (λ xs. length xs) cs);
          peak = omega (arith, h.peak, h.permits, e);
          once = λ j. ground (arith, h.once j, count-absent c w.pool.all_connections new);
          placed = λ j. omega (arith, h.placed j);
        })
    where
      absent : count c w.pool.active_connections ≡ 0
      absent = omega (arith, h.placed c, count-absent c w.pool.all_connections new)

  failed-IsSound :
      (w : World) (n : ℕ)
      → IsSound w
      → w.entering ≡ suc n
      → IsSound (record w { entering = n; failed = suc w.failed })
  failed-IsSound w n h e = record {
    permits = omega (arith, h.permits, e);
    connections = h.connections;
    created = h.created;
    peak = h.peak;
    once = h.once;
    placed = h.placed;
  }

  taken-IsSound :
      (w : World) (n : ℕ) (made : Option ℕ) (cs : List ℕ)
      → IsSound w
      → w.entering ≡ suc n
      → is_new made w.pool.all_connections ≡ true
      → w.pool.connections ≡ cs
      → IsSound (after_take w n (pop_or_create made w.pool cs))
  unfolding create
  taken-IsSound w n none [] h e new e' = failed-IsSound w n h e
  taken-IsSound w n (some c) [] h e new e' = created-IsSound w n c h e e' (ground (arith, new))
  taken-IsSound w n made (c ∷ rest) h e new e' = popped-IsSound w n c rest h e e'

  waited-IsSound : (w : World) → IsSound w → IsSound (after_wait w (wait w.pool))
  unfolding wait
  waited-IsSound w h = elim (Bool-cases (w.pool.semaphore == 0)) [
    | inl busy ↦ rw (busy, wait) h
    | inr free ↦
        rw (free, wait)
          (record {
            permits = ground (arith, h.permits, free);
            connections = h.connections;
            created = h.created;
            peak = h.peak;
            once = h.once;
            placed = h.placed;
          })
  ]

  given-IsSound :
      (w : World) (c : ℕ)
      → IsSound w
      → contains c w.pool.active_connections ≡ true
      → IsSound (record w { pool = give_back c w.pool; leaving = suc w.leaving })
  unfolding give_back
  given-IsSound w c h held =
      let one : count c w.pool.active_connections ≡ 1 =
        omega (arith, h.once c, h.placed c, count-contains c w.pool.active_connections held) in
      record {
        permits = omega (arith, h.permits, one, length-discard c w.pool.active_connections);
        connections = omega (arith, h.connections, one, length-discard c w.pool.active_connections);
        created = h.created;
        peak = h.peak;
        once = h.once;
        placed = λ j. ground (
          arith,
          h.placed j,
          h.once j,
          count-discard j c w.pool.active_connections,
          count-contains c w.pool.active_connections held,
          one,
        );
      }

  signalled-IsSound :
      (w : World)
      → IsSound w
      → ltb 0 w.leaving ≡ true
      → IsSound (record w { pool = signal w.pool; leaving = w.leaving - 1 })
  unfolding signal
  signalled-IsSound w h some_left = record {
    permits = ground (arith, h.permits, some_left);
    connections = h.connections;
    created = h.created;
    peak = h.peak;
    once = h.once;
    placed = h.placed;
  }

  step-IsSound : (w : World) (e : Event) → IsSound w → IsSound (step w e)
  unfolding step take_connection
  step-IsSound w waits h = waited-IsSound w h
  step-IsSound w (takes made) h =
      elim (Bool-cases (is_new made w.pool.all_connections && ltb 0 w.entering)) [
        | inl ready ↦
            rw (ready, step)
              (taken-IsSound w (w.entering - 1) made w.pool.connections h (ground (arith, ready))
                (ground (arith, ready)) refl)
        | inr other ↦ rw (other, step) h
      ]
  step-IsSound w (gives c) h = elim (Bool-cases (contains c w.pool.active_connections)) [
    | inl held ↦ rw (held, step) (given-IsSound w c h held)
    | inr other ↦ rw (other, step) h
  ]
  step-IsSound w signals h = elim (Bool-cases (ltb 0 w.leaving)) [
    | inl some_left ↦ rw (some_left, step) (signalled-IsSound w h some_left)
    | inr other ↦ rw (other, step) h
  ]

  run-IsSound : (w : World) (events : List Event) → IsSound w → IsSound (run w events)
  unfolding run
  run-IsSound w [] h = h
  run-IsSound w (e ∷ events) h = run-IsSound (step w e) events (step-IsSound w e h)

-- However its threads interleave and whatever creations raise, a pool of n connections never creates
-- more than n, never has more than n active, and reports no higher peak; no connection is active twice,
-- nor active and free at once. No close_all is among the steps.
pub run-bounded :
    (n : ℕ) (events : List Event)
    → (length (run (begin_world n) events).pool.all_connections ≤ n)
      × (length (run (begin_world n) events).pool.active_connections ≤ n)
      × ((run (begin_world n) events).pool.peak_utilization ≤ n)
      × ((c : ℕ)
          → count c (run (begin_world n) events).pool.connections
              + count c (run (begin_world n) events).pool.active_connections
            ≤ 1)
run-bounded n events =
    let h = run-IsSound n (begin_world n) events (fresh-IsSound n) in
    (h.created, omega (arith, h.permits), h.peak, λ c. omega (arith, h.once c, h.placed c))
