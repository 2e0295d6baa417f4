-- ===== src/Books/Connection.antt =====
-- One connection's rows, from a session that is live to the end of the partition.
use k2_market_data_platform.Base.{
  ℕ, suc, ◌-◌, ◌*◌, ◌/◌, max, ◌≤◌, ◌≡◌, refl, sym, ap, ◌∙◌, subst, true, some, List, [], ◌∷◌, ◌++◌,
  All, append-nil, if◌then◌else◌, arith,
}
use k2_market_data_platform.Base.Eq.{◌=?◌, string_eq, pair_eq}
use k2_market_data_platform.Books.{
  ns, Key, Row, StateRow, Session, Output, state, Payload, kraken, coinbase,
}
use k2_market_data_platform.Books.Flush.{state_row, row_at, next_second, flush_seconds}
use k2_market_data_platform.Books.Replay.{
  Env, on_frame, on_row, taken, framed, then_out, closed, finish, key_of, resumed, replay_rows,
}
use k2_market_data_platform.Books.Seconds.{
  seconds, states_of, Consecutive, Consecutive-append, seconds-append, states_of-append, Due, Emits,
  due_after, flushed, flushed_rows, flush_seconds-exact, flush_seconds-Emits,
}

pub Emits-append :
    (k m n : ℕ) (a b : List Output) (s t : Session)
    → Emits k a s m
    → Emits m b t n
    → Emits k (a ++ b) t n
Emits-append k m n a b s t (c, _, e) (d, due, f) = (
  subst (λ xs. Consecutive k xs n) (sym (seconds-append a b))
      (Consecutive-append k m n (seconds a) (seconds b) c d),
  due,
  states_of-append a b ∙ ap (λ xs. xs ++ states_of b) e ∙ f,
)

-- the outputs of a connection's end: the seconds from `k` on and without `m`, and the state that
-- names the last
abbrev pub Ends : ℕ → List Output → ℕ → Type 0
Ends k out m =
    (row : StateRow) × Consecutive k (seconds out) m
    × (states_of out ≡ row ∷ [])
    × (suc row.last_second ≡ m)

pub Ends-append :
    (k m n : ℕ) (a b : List Output) (s : Session) → Emits k a s m → Ends m b n → Ends k (a ++ b) n
Ends-append k m n a b s (c, _, e) (row, d, f, last) = (
  row,
  subst (λ xs. Consecutive k xs n) (sym (seconds-append a b))
      (Consecutive-append k m n (seconds a) (seconds b) c d),
  states_of-append a b ∙ ap (λ xs. xs ++ states_of b) e ∙ f,
  last,
)

-- the second that is due after some more rows of a connection that was due `k`
unfoldable pub reached : ℕ → List Row → ℕ
reached k [] = k
reached k (r ∷ rows) = reached (max k (r.recv_ts_ns / ns)) rows

-- the last frame taken came no later than in the second that is due
abbrev pub UpToDate : Session → ℕ → Type 0
UpToDate s k = s.st.recv_ts_ns / ns ≤ k

finish-Ends :
    (s : Session) (k : ℕ)
    → Due s k
    → UpToDate s k
    → 1 ≤ k
    → (out : List Output) × (finish s ≡ some out) × Ends k out k
unfolding finish state_row seconds states_of
finish-Ends s k h late one =
    let upto = s.st.recv_ts_ns in
    let rows = flushed_rows s upto k in
    let row = row_at (flushed s upto k) ((due_after k upto - 1) * ns) in
    let (c, _, e) = flush_seconds-Emits s k upto h one in
    (
      rows ++ state row ∷ [],
      ap (λ b. if b then closed (flush_seconds s upto) else some []) h.0
          ∙ ap closed (flush_seconds-exact s k upto h one),
      (
        row,
        subst (λ xs. Consecutive k xs k)
            (sym (seconds-append rows (state row ∷ []) ∙ append-nil (seconds rows)))
            (subst (λ i. Consecutive k (seconds rows) i) (omega (arith, late)) c),
        states_of-append rows (state row ∷ []) ∙ ap (λ xs. xs ++ row ∷ []) e,
        omega (arith, late, one),
      ),
    )

the_key : (key : Key) (r : Row) → key_of r ≡ key → (key_of r =? key) ≡ true
the_key key r e = (pair_eq.beq_iff (key_of r) key).1 e

module _ (env : Env) where
  -- a frame emits no second, and keeps the one that is due
  on_frame-Due :
      (s : Session) (r : Row) (p : Payload) (k : ℕ)
      → Due s k
      → (seconds (on_frame env s r p).0 ≡ [])
        × (states_of (on_frame env s r p).0 ≡ [])
        × Due (on_frame env s r p).1 k
        × ((on_frame env s r p).1.st.recv_ts_ns ≡ r.recv_ts_ns)
  unfolding on_frame taken seconds states_of next_second
  on_frame-Due s r (kraken is_snapshot bids asks checksum) k h = ground (arith, h)
  on_frame-Due s r (coinbase is_snapshot updates sequence_num) k h = ground (arith, h)

  -- a row of a due session is taken without an error
  pub on_row-Emits :
      (s : Session) (r : Row) (k : ℕ)
      → Due s k
      → 1 ≤ k
      → (out : List Output) × (next : Session) × (on_row env s r ≡ some (out, next))
        × Emits k out next (due_after k r.recv_ts_ns)
        × UpToDate next (due_after k r.recv_ts_ns)
  unfolding on_row
  on_row-Emits s r k h one =
      let m = due_after k r.recv_ts_ns in
      let f = flushed s r.recv_ts_ns k in
      let rows = flushed_rows s r.recv_ts_ns k in
      let emits = flush_seconds-Emits s k r.recv_ts_ns h one in
      let (none_out, no_state, kept, at) = on_frame-Due f r r.payload m (emits.1) in
      let out = (on_frame env f r r.payload).0 in
      let next = (on_frame env f r r.payload).1 in
      (
        rows ++ out,
        next,
        ap (framed env r) (flush_seconds-exact s k r.recv_ts_ns h one),
        Emits-append k m m rows out f next emits
            (subst (λ xs. Consecutive m xs m) (sym none_out) refl, kept, no_state),
        omega (arith, at),
      )

  pub same_key :
      (key : Key) (s : Session) (r : Row) (rows : List Row)
      → key_of r ≡ key
      → replay_rows env key s (r ∷ rows)
        ≡ resumed (λ next. replay_rows env key next rows) (on_row env s r)
  unfolding replay_rows
  same_key key s r rows e = rw (the_key key r e, replay_rows) refl

  -- the rows of a due session's connection, up to the end of the partition
  pub rows-Ends :
      (key : Key) (s : Session) (rows : List Row) (k : ℕ)
      → Due s k
      → UpToDate s k
      → 1 ≤ k
      → All (λ r. key_of r ≡ key) rows
      → (out : List Output) × (replay_rows env key s rows ≡ some out) × Ends k out (reached k rows)
  unfolding replay_rows reached
  rows-Ends key s [] k h late one a = finish-Ends s k h late one
  rows-Ends key s (r ∷ rows) k h late one a =
      let m = due_after k r.recv_ts_ns in
      let (out, next, e, emits, late') = on_row-Emits s r k h one in
      let (out', e', ends) = rows-Ends key next rows m (emits.1) late' (omega (arith, one)) a.1 in
      (
        out ++ out',
        same_key key s r rows a.0
            ∙ ap (resumed (λ n. replay_rows env key n rows)) e
            ∙ ap (then_out (some out)) e',
        Ends-append k m (reached m rows) out out' next emits ends,
      )
