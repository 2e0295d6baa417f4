-- ===== src/ConnectionPool.antt =====
-- legacy/v1/src/k2/common/connection_pool.py: DuckDBConnectionPool. A connection is its id. What happens
-- under the lock is one step, and so are the waits on the semaphore and its releases, so that threads
-- interleave between them. Python's list of connections is kept with its last element first.
pub mod Members
pub mod Capacity
pub mod Leak
use k2_market_data_platform.Base.{
  ℕ, suc, ◌-◌, max, Bool, ◌&&◌, ltb, true, false, Option, none, some, List, [], ◌∷◌, length,
  if◌then◌else◌, ◌==◌,
}

pub record ConnectionPool : Type 0 where
  pub pool_size : ℕ
  pub connections : List ℕ
  pub all_connections : List ℕ
  pub semaphore : ℕ
  pub active_connections : List ℕ
  pub total_acquisitions : ℕ
  pub peak_utilization : ℕ

unfoldable pub fresh_pool : ℕ → ConnectionPool
fresh_pool pool_size = record {
  pool_size = pool_size;
  connections = [];
  all_connections = [];
  semaphore = pool_size;
  active_connections = [];
  total_acquisitions = 0;
  peak_utilization = 0;
}

unfoldable pub contains : ℕ → List ℕ → Bool
contains c [] = false
contains c (d ∷ ds) = if d == c then true else contains c ds

-- `set.add` and `set.discard`
unfoldable pub add : ℕ → List ℕ → List ℕ
add c ds = if contains c ds then ds else c ∷ ds

unfoldable pub discard : ℕ → List ℕ → List ℕ
discard c [] = []
discard c (d ∷ ds) = let rest = discard c ds in if d == c then rest else d ∷ rest

-- `self._semaphore.acquire(timeout=timeout)` and what follows a success; none is the timeout
unfoldable pub wait : ConnectionPool → Option ConnectionPool
wait p =
    if p.semaphore == 0
    then none
    else some
        (record p { semaphore = p.semaphore - 1; total_acquisitions = suc p.total_acquisitions })

unfoldable pub mark_active : ℕ → ConnectionPool → ConnectionPool
mark_active c p = record p {
  active_connections = add c p.active_connections;
  peak_utilization = max p.peak_utilization (length (add c p.active_connections));
}

-- a new connection, where there is one: `_create_connection` may raise
unfoldable pub create : Option ℕ → ConnectionPool → Option ConnectionPool
create none p = none
create (some c) p = some (mark_active c (record p { all_connections = c ∷ p.all_connections }))

abbrev pub pop_or_create : Option ℕ → ConnectionPool → List ℕ → Option ConnectionPool
pop_or_create made p [] = create made p
pop_or_create made p (c ∷ rest) = some (mark_active c (record p { connections = rest }))

-- the block under the lock; none where the creation raises
unfoldable pub take_connection : Option ℕ → ConnectionPool → Option ConnectionPool
take_connection made p = pop_or_create made p p.connections

-- the `finally` block under the lock, and the release of the semaphore after it
unfoldable pub give_back : ℕ → ConnectionPool → ConnectionPool
give_back c p = record p {
  active_connections = discard c p.active_connections;
  connections = c ∷ p.connections;
}

unfoldable pub signal : ConnectionPool → ConnectionPool
signal p = record p { semaphore = suc p.semaphore }

-- every connection is closed and none is kept track of; the semaphore stays as it is
unfoldable pub close_all : ConnectionPool → ConnectionPool
close_all p = record p { connections = []; all_connections = []; active_connections = [] }

-- The threads about a pool: those past the semaphore and not yet under the lock, those that gave their
-- connection back and have not released the semaphore, and those that an error took out in between.
pub record World : Type 0 where
  pub pool : ConnectionPool
  pub entering : ℕ
  pub leaving : ℕ
  pub failed : ℕ

pub data Event : Type 0 where
  waits : Event
  -- with the new connection that a creation would bring
  takes : Option ℕ → Event
  gives : ℕ → Event
  signals : Event

abbrev pub after_wait : World → Option ConnectionPool → World
after_wait w none = w
after_wait w (some p) = record w { pool = p; entering = suc w.entering }

abbrev pub after_take : World → ℕ → Option ConnectionPool → World
after_take w n none = record w { entering = n; failed = suc w.failed }
after_take w n (some p) = record w { pool = p; entering = n }

-- a new connection is none of those that the pool holds on to
abbrev pub is_new : Option ℕ → List ℕ → Bool
is_new none all = true
is_new (some c) all = if contains c all then false else true

-- one step of some thread; an event that no thread is ready for changes nothing
unfoldable pub step : World → Event → World
step w waits = after_wait w (wait w.pool)
step w (takes made) =
    if is_new made w.pool.all_connections && ltb 0 w.entering
    then after_take w (w.entering - 1) (take_connection made w.pool)
    else w
step w (gives c) =
    if contains c w.pool.active_connections
    then record w { pool = give_back c w.pool; leaving = suc w.leaving }
    else w
step w signals =
    if ltb 0 w.leaving then record w { pool = signal w.pool; leaving = w.leaving - 1 } else w

unfoldable pub run : World → List Event → World
run w [] = w
run w (e ∷ events) = run (step w e) events

abbrev pub begin_world : ℕ → World
begin_world pool_size = record {
  pool = fresh_pool pool_size;
  entering = 0;
  leaving = 0;
  failed = 0;
}
