-- ===== src/ConnectionPool/Leak.antt =====
-- The permit that a failed creation keeps.
use k2_market_data_platform.Base.{
  ℕ, zero, suc, ◌+◌, ◌-◌, ◌≡◌, refl, sym, ap, ◌∙◌, subst, false, Option, none, some, List, [], ◌∷◌,
  ◌++◌, Bool-cases, inl, inr, if◌then◌else◌, ◌==◌, arith,
}
use k2_market_data_platform.ConnectionPool.{
  ConnectionPool, fresh_pool, contains, wait, create, take_connection, give_back, close_all,
  mark_active, discard, World, Event, waits, takes, gives, signals, after_wait, is_new, step, run,
  begin_world,
}

-- a thread that gets a permit and whose creation raises, n times
abbrev pub failures : ℕ → List Event
failures zero = []
failures (suc n) = waits ∷ takes none ∷ failures n

-- a pool of some size with so many permits left, after so many failures
abbrev drained : ℕ → ℕ → ℕ → World
drained size left lost = record {
  pool = record {
    pool_size = size;
    connections = [];
    all_connections = [];
    semaphore = left;
    active_connections = [];
    total_acquisitions = lost;
    peak_utilization = 0;
  };
  entering = 0;
  leaving = 0;
  failed = lost;
}

-- and with one thread past the semaphore
abbrev entered : ℕ → ℕ → ℕ → World
entered size left lost = record {
  pool = (drained size left (suc lost)).pool;
  entering = 1;
  leaving = 0;
  failed = lost;
}

wait_once :
    (size left lost : ℕ) → step (drained size (suc left) lost) waits ≡ entered size left lost
unfolding step wait
wait_once size left lost =
    subst
      (λ b.
        after_wait (drained size (suc left) lost) (if b then none else some (waited (suc left - 1)))
        ≡ entered size left lost)
      (sym some_left) (ap (λ m. after_wait (drained size (suc left) lost) (some (waited m))) back)
  where
    waited : ℕ → ConnectionPool
    waited m = record ((drained size m lost).pool) { total_acquisitions = suc lost }

    some_left : (suc left == 0) ≡ false
    some_left = ground arith

    back : suc left - 1 ≡ left
    back = omega arith

fail_once :
    (size left lost : ℕ)
    → step (step (drained size (suc left) lost) waits) (takes none) ≡ drained size left (suc lost)
unfolding step take_connection create
fail_once size left lost = ap (λ w. step w (takes none)) (wait_once size left lost)

run-failures :
    (size n lost : ℕ) (events : List Event)
    → run (drained size n lost) (failures n ++ events) ≡ run (drained size 0 (lost + n)) events
unfolding run
run-failures size zero lost events = ap (λ m. run (drained size 0 m) events) (omega arith)
run-failures size (suc n) lost events =
    ap (λ w. run w (failures n ++ events)) (fail_once size n lost)
    ∙ run-failures size n (suc lost) events
    ∙ ap (λ m. run (drained size 0 m) events) (omega arith)

stuck : (size lost : ℕ) (e : Event) → step (drained size 0 lost) e ≡ drained size 0 lost
unfolding step wait contains
stuck size lost waits = refl
stuck size lost (takes made) = elim (Bool-cases (is_new made [])) [
  | inl e ↦ rw e refl
  | inr e ↦ rw e refl
]
stuck size lost (gives c) = refl
stuck size lost signals = refl

run-stuck :
    (size lost : ℕ) (events : List Event) → run (drained size 0 lost) events ≡ drained size 0 lost
unfolding run
run-stuck size lost [] = refl
run-stuck size lost (e ∷ events) =
    ap (λ w. run w events) (stuck size lost e) ∙ run-stuck size lost events

-- After as many failed creations as the pool has connections, whatever happens next, no connection is
-- active or free and every wait for one times out.
pub run-starves :
    (n : ℕ) (events : List Event)
    → ((run (begin_world n) (failures n ++ events)).pool.active_connections ≡ [])
      × ((run (begin_world n) (failures n ++ events)).pool.connections ≡ [])
      × (wait (run (begin_world n) (failures n ++ events)).pool ≡ none)
unfolding fresh_pool wait
run-starves n events =
    let e = run-failures n n 0 events ∙ run-stuck n (0 + n) events in
    (ap (λ w. w.pool.active_connections) e, ap (λ w. w.pool.connections) e, ap (λ w. wait w.pool) e)

-- A connection that is given back after close_all, which closed it, is the next one to be handed out.
closed_reused :
    (c : ℕ) (made : Option ℕ) (p : ConnectionPool)
    → take_connection made (give_back c (close_all p))
      ≡ some (
          mark_active c
            (record (close_all p) { active_connections = discard c []; connections = [] }))
unfolding take_connection give_back close_all
closed_reused c made p = refl
