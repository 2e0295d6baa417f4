-- ===== src/Books/Ticks.antt =====
-- A connection from one run to the next.
use k2_market_data_platform.Base.{
  ℕ, suc, ◌/◌, max, ◌≤◌, ◌≡◌, refl, sym, ap, ◌∙◌, subst, Option, none, some, List, [], ◌∷◌, ◌++◌,
  All, arith,
}
use k2_market_data_platform.Base.Eq.{string_eq, pair_eq, beq_refl}
use k2_market_data_platform.Base.Dict.{lookup, insert, lookup-insert}
use k2_market_data_platform.Books.{ns, Key, Row, StateRow, Session, Output}
use k2_market_data_platform.Books.Flush.{next_second}
use k2_market_data_platform.Books.Replay.{
  Env, on_row, then_out, key_of, resumed, first_row, replay_rows, replay_partition, open_session,
}
use k2_market_data_platform.Books.Seconds.{
  seconds, states_of, Consecutive, Consecutive-append, seconds-append, Due, Emits,
}
use k2_market_data_platform.Books.Connection.{
  Ends, Ends-append, reached, UpToDate, rows-Ends, on_row-Emits,
}

-- a resumed session is due the second after the last one that was emitted
open_session-Due :
    (prev : StateRow) (r : Row) → Due (open_session (some prev) r) (suc prev.last_second)
unfolding open_session next_second
open_session-Due prev r = ground arith

-- what follows a connection's first row, where that row leaves the session due
pub after_row :
    (env : Env) (key : Key) (o : Option (List Output × Session)) (out : List Output)
    (next : Session) (rows : List Row) (k m : ℕ)
    → o ≡ some (out, next)
    → Emits k out next m
    → UpToDate next m
    → 1 ≤ m
    → All (λ r. key_of r ≡ key) rows
    → (all : List Output) × (resumed (λ n. replay_rows env key n rows) o ≡ some all)
      × Ends k all (reached m rows)
after_row env key o out next rows k m e emits late one a =
    let (out', e', ends) = rows-Ends env key next rows m (emits.1) late one a in
    (
      out ++ out',
      ap (resumed (λ n. replay_rows env key n rows)) e ∙ ap (then_out (some out)) e',
      Ends-append k m (reached m rows) out out' next emits ends,
    )

-- A run that finds a connection's state emits the seconds after the state's last one up to the one
-- before the latest second that a row came in, none left out and none twice, raises nothing, and
-- leaves the state that names the last of them.
pub replay_partition-resumes :
    (env : Env) (prev : StateRow) (r : Row) (rows : List Row)
    → lookup (key_of r) env.states ≡ some prev
    → All (λ x. key_of x ≡ key_of r) rows
    → (out : List Output) × (replay_partition env (r ∷ rows) ≡ some out)
      × Ends (suc prev.last_second) out (reached (suc prev.last_second) (r ∷ rows))
unfolding replay_partition reached
replay_partition-resumes env prev r rows e a =
    let k = suc prev.last_second in
    let (out, next, step, emits, late) =
      on_row-Emits env (open_session (some prev) r) r k (open_session-Due prev r) (omega arith) in
    after_row env (key_of r) (first_row env r) out next rows k (max k (r.recv_ts_ns / ns))
      (ap (λ o. on_row env (open_session o r) r) e ∙ step) emits late (omega arith) a

-- the runs of a connection, each with the state that the one before it left
unfoldable pub with_state : Env → Key → StateRow → Env
with_state env key prev = record env { states = insert key prev env.states }

unfoldable pub last_state : StateRow → List StateRow → StateRow
last_state prev [] = prev
last_state prev (row ∷ rows) = last_state row rows

unfoldable pub ticks : Env → Key → StateRow → List (List Row) → Option (List Output)
ticks env key prev [] = some []
ticks env key prev (rows ∷ later) = elim (replay_partition (with_state env key prev) rows) [
  | none ↦ none
  | some out ↦ then_out (some out) (ticks env key (last_state prev (states_of out)) later)
]

some_tick :
    (env : Env) (key : Key) (prev : StateRow) (rows : List Row) (later : List (List Row))
    (out : List Output)
    → replay_partition (with_state env key prev) rows ≡ some out
    → ticks env key prev (rows ∷ later)
      ≡ then_out (some out) (ticks env key (last_state prev (states_of out)) later)
unfolding ticks
some_tick env key prev rows later out e = rw (e, ticks) refl

held :
    (env : Env) (key : Key) (prev : StateRow)
    → lookup key (with_state env key prev).states ≡ some prev
unfolding with_state
held env key prev = lookup-insert key key prev env.states ∙ rw (beq_refl key) refl

-- one run of a connection, empty or not
tick :
    (env : Env) (key : Key) (prev : StateRow) (rows : List Row)
    → All (λ r. key_of r ≡ key) rows
    → (out : List Output) × (replay_partition (with_state env key prev) rows ≡ some out)
      × Consecutive (suc prev.last_second) (seconds out) (reached (suc prev.last_second) rows)
      × (suc (last_state prev (states_of out)).last_second ≡ reached (suc prev.last_second) rows)
unfolding replay_partition seconds states_of last_state reached
tick env key prev [] a = ([], refl, refl, refl)
tick env key prev (r ∷ rows) a =
    let (out, e, (row, c, st, last)) =
      replay_partition-resumes (with_state env key prev) prev r rows
        (ap (λ j. lookup j (with_state env key prev).states) a.0 ∙ held env key prev)
        (same_as key (key_of r) a.0 rows a.1) in
    (out, e, c, ap (λ xs. suc (last_state prev xs).last_second) st ∙ last)
  where
    same_as :
        (key j : Key)
        → j ≡ key
        → (rows : List Row) → All (λ r. key_of r ≡ key) rows
        → All (λ r. key_of r ≡ j) rows
    same_as key j e [] a = tt
    same_as key j e (r ∷ rows) a = (a.0 ∙ sym e, same_as key j e rows a.1)

-- the second that is due after some runs of a connection that was due `k`
unfoldable pub reached_by : ℕ → List (List Row) → ℕ
reached_by k [] = k
reached_by k (rows ∷ runs) = reached_by (reached k rows) runs

-- Over any number of runs of one connection, each started from the state that the one before it left
-- and none of them raising, the seconds that are emitted are those after the first state's last one
-- and before the latest second that a row came in, in order, none left out and none twice; where no
-- row came in a later second than the first one due, none is emitted.
pub ticks-Consecutive :
    (env : Env) (key : Key) (prev : StateRow) (runs : List (List Row))
    → All (λ rows. All (λ r. key_of r ≡ key) rows) runs
    → (out : List Output) × (ticks env key prev runs ≡ some out)
      × Consecutive (suc prev.last_second) (seconds out) (reached_by (suc prev.last_second) runs)
unfolding ticks seconds reached_by
ticks-Consecutive env key prev [] a = ([], refl, refl)
ticks-Consecutive env key prev (rows ∷ runs) a =
    let k = suc prev.last_second in
    let m = reached k rows in
    let (out, e, c, last) = tick env key prev rows a.0 in
    let (out', e', c') = ticks-Consecutive env key (last_state prev (states_of out)) runs a.1 in
    (
      out ++ out',
      some_tick env key prev rows runs out e ∙ ap (then_out (some out)) e',
      subst (λ xs. Consecutive k xs (reached_by m runs)) (sym (seconds-append out out'))
          (Consecutive-append k m (reached_by m runs) (seconds out) (seconds out') c
            (subst (λ i. Consecutive i (seconds out') (reached_by i runs)) last c')),
    )
