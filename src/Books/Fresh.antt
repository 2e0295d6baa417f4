-- ===== src/Books/Fresh.antt =====
-- A connection that no state is known of: from its first snapshot on, and the error of a single frame.
use k2_market_data_platform.Base.{
  ◌/◌, ◌≤◌, ◌≡◌, refl, sym, ap, ◌∙◌, subst, Bool, true, false, none, some, List, [], ◌∷◌, All,
  if◌then◌else◌, arith,
}
use k2_market_data_platform.Base.Eq.{◌=?◌, string_eq, pair_eq}
use k2_market_data_platform.Base.Dict.{lookup}
use k2_market_data_platform.Books.{ns, Row, Session, Output, Payload, kraken, coinbase}
use k2_market_data_platform.Books.Flush.{state_row, row_from, second_of, next_second, flush_seconds}
use k2_market_data_platform.Books.Replay.{
  Env, on_frame, on_row, taken, then_out, state_out, leave, key_of, resumed, first_row, replay_rows,
  replay_partition, open_session,
}
use k2_market_data_platform.Books.Seconds.{seconds, states_of, Consecutive, Due}
use k2_market_data_platform.Books.Connection.{Ends, reached}
use k2_market_data_platform.Books.Ticks.{after_row}

abbrev pub is_snapshot : Payload → Bool
is_snapshot (kraken snapshot bids asks checksum) = snapshot
is_snapshot (coinbase snapshot updates sequence_num) = snapshot

-- a connection that no state is known of
abbrev new_session : Row → Session
new_session r = open_session none r

-- its first snapshot makes it due the second that the snapshot came in
snapshot-Due :
    (env : Env) (s : Session) (r : Row) (p : Payload)
    → s.st.live ≡ false
    → s.st.last_second_ns ≡ none
    → is_snapshot p ≡ true
    → (seconds (on_frame env s r p).0 ≡ [])
      × (states_of (on_frame env s r p).0 ≡ [])
      × Due (on_frame env s r p).1 (r.recv_ts_ns / ns)
      × ((on_frame env s r p).1.st.recv_ts_ns ≡ r.recv_ts_ns)
unfolding on_frame taken next_second second_of seconds states_of
snapshot-Due env s r (kraken snapshot bids asks checksum) dead no_second snap =
    ground (arith, dead, no_second, snap)
snapshot-Due env s r (coinbase snapshot updates sequence_num) dead no_second snap =
    ground (arith, dead, no_second, snap)

snapshot-last :
    (env : Env) (s : Session) (r : Row) (p : Payload)
    → s.st.live ≡ false
    → s.st.last_second_ns ≡ none
    → is_snapshot p ≡ true
    → ((on_frame env s r p).1.st.live ≡ true) × ((on_frame env s r p).1.st.last_second_ns ≡ none)
unfolding on_frame taken
snapshot-last env s r (kraken snapshot bids asks checksum) dead no_second snap =
    ground (arith, dead, no_second, snap)
snapshot-last env s r (coinbase snapshot updates sequence_num) dead no_second snap =
    ground (arith, dead, no_second, snap)

module _ (env : Env) (r : Row) (fresh : lookup (key_of r) env.states ≡ none)
    (snap : is_snapshot r.payload ≡ true) where
  -- the session after the first row
  begun : Session
  begun = (on_frame env (new_session r) r r.payload).1

  first_row_begins : first_row env r ≡ some ((on_frame env (new_session r) r r.payload).0, begun)
  unfolding on_row flush_seconds open_session begun
  first_row_begins = ap (λ o. on_row env (open_session o r) r) fresh

  begun-Due :
      (seconds (on_frame env (new_session r) r r.payload).0 ≡ [])
      × (states_of (on_frame env (new_session r) r r.payload).0 ≡ [])
      × Due begun (r.recv_ts_ns / ns)
      × (begun.st.recv_ts_ns ≡ r.recv_ts_ns)
  unfolding begun open_session
  begun-Due = snapshot-Due env (new_session r) r r.payload refl refl snap

  -- A partition of one connection that no state is saved of, with a snapshot as its first frame, which
  -- came one second after 1970 began or later, raises nothing: its seconds are those from the
  -- snapshot's own on, none left out and none twice, and before the latest second that a row came in,
  -- and the one state that it leaves names the second before that one.
  pub replay_partition-begins :
      (rows : List Row)
      → 1 ≤ r.recv_ts_ns / ns
      → All (λ x. key_of x ≡ key_of r) rows
      → (out : List Output) × (replay_partition env (r ∷ rows) ≡ some out)
        × Ends (r.recv_ts_ns / ns) out (reached (r.recv_ts_ns / ns) rows)
  unfolding replay_partition
  replay_partition-begins rows one a =
      let k = r.recv_ts_ns / ns in
      let out = (on_frame env (new_session r) r r.payload).0 in
      after_row env (key_of r) (first_row env r) out begun rows k k first_row_begins
        (subst (λ xs. Consecutive k xs k) (sym begun-Due.0) refl, begun-Due.2, begun-Due.1)
        (omega (arith, begun-Due.3)) one a

  begun-last : (begun.st.live ≡ true) × (begun.st.last_second_ns ≡ none)
  unfolding begun open_session
  begun-last = snapshot-last env (new_session r) r r.payload refl refl snap

  begun-leave : leave begun ≡ none
  unfolding leave state_row
  begun-leave =
      ap (λ b. if b then state_out (state_row begun) else some []) begun-last.0
      ∙ ap (λ o. state_out (row_from begun o)) begun-last.1

  other_key :
      (other : Row) (rows : List Row)
      → (key_of other =? key_of r) ≡ false
      → replay_rows env (key_of r) begun (other ∷ rows)
        ≡ then_out
            (leave begun)
            (resumed (λ n. replay_rows env (key_of other) n rows) (first_row env other))
  unfolding replay_rows
  other_key other rows diff = rw (diff, replay_rows) refl

  -- A connection that no state is saved of, and of which the partition holds a single frame, a
  -- snapshot, makes the run raise as soon as another connection follows it: it has no last second to
  -- leave.
  pub replay_partition-raises :
      (other : Row) (rows : List Row)
      → (key_of other =? key_of r) ≡ false
      → replay_partition env (r ∷ other ∷ rows) ≡ none
  unfolding replay_partition
  replay_partition-raises other rows diff =
      ap (resumed (λ n. replay_rows env (key_of r) n (other ∷ rows))) first_row_begins
      ∙ ap (then_out (some (on_frame env (new_session r) r r.payload).0)) (
          other_key other rows diff
          ∙ ap
              (λ o.
                then_out o
                  (resumed (λ n. replay_rows env (key_of other) n rows) (first_row env other)))
              begun-leave)
