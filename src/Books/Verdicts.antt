-- ===== src/Books/Verdicts.antt =====
-- The verdicts on the frames of a Kraken partition.
use k2_market_data_platform.Base.{
  ℕ, ◌≡◌, refl, ap, ◌∙◌, subst, Bool-cases, inl, inr, Option, none, some, List, [], ◌∷◌, ◌++◌, map,
  All, if_intro, arith,
}
use k2_market_data_platform.Base.Eq.{◌=?◌, string_eq, pair_eq}
use k2_market_data_platform.Base.Dict.{lookup}
use k2_market_data_platform.Books.{
  Key, Row, StateRow, Session, Output, verdict, book_row, state, Source, Payload, kraken, coinbase,
}
use k2_market_data_platform.Books.Flush.{
  snapshot_row, state_row, next_second, walked, flush_from, flush_seconds,
}
use k2_market_data_platform.Books.Replay.{
  Env, on_frame, on_row, framed, then_out, state_out, leave, closed, finish, key_of, resumed,
  first_row, replay_rows, replay_partition, open_session,
}

-- the frames that some outputs give a verdict on
unfoldable pub verdicts : List Output → List Source
verdicts [] = []
verdicts (verdict src ok ∷ out) = src ∷ verdicts out
verdicts (book_row b ∷ out) = verdicts out
verdicts (state row ∷ out) = verdicts out

verdicts-append : (a b : List Output) → verdicts (a ++ b) ≡ verdicts a ++ verdicts b
unfolding verdicts
verdicts-append [] b = refl
verdicts-append (verdict src ok ∷ a) b = ap (λ xs. src ∷ xs) (verdicts-append a b)
verdicts-append (book_row r ∷ a) b = verdicts-append a b
verdicts-append (state row ∷ a) b = verdicts-append a b

verdicts-map :
    (s : Session) (xs : List ℕ)
    → verdicts (map (λ second. book_row (snapshot_row s second)) xs) ≡ []
unfolding verdicts
verdicts-map s [] = refl
verdicts-map s (x ∷ xs) = verdicts-map s xs

-- what a step gives verdicts on, if it does not raise
abbrev Gives : Option (List Output) → List Source → Type 0
Gives none l = Unit
Gives (some out) l = verdicts out ≡ l

abbrev StepGives : Option (List Output × Session) → List Source → Type 0
StepGives none l = Unit
StepGives (some (out, next)) l = verdicts out ≡ l

then_out-Gives :
    (a b : Option (List Output)) (l m : List Source)
    → Gives a l
    → Gives b m
    → Gives (then_out a b) (l ++ m)
then_out-Gives none b l m g h = tt
then_out-Gives (some out) none l m g h = tt
then_out-Gives (some out) (some rest) l m g h =
    verdicts-append out rest ∙ ap (λ xs. xs ++ verdicts rest) g ∙ ap (λ xs. l ++ xs) h

state_out-Gives : (o : Option StateRow) → Gives (state_out o) []
unfolding verdicts
state_out-Gives none = tt
state_out-Gives (some row) = refl

flush_from-Gives : (s : Session) (upto : ℕ) (o : Option ℕ) → StepGives (flush_from s upto o) []
flush_from-Gives s upto none = tt
flush_from-Gives s upto (some sec) = verdicts-map s (walked upto sec).0

flush_seconds-Gives : (s : Session) (upto : ℕ) → StepGives (flush_seconds s upto) []
unfolding flush_seconds verdicts
flush_seconds-Gives s upto =
    if_intro (λ o. StepGives o []) s.st.live (flush_from s upto (next_second s.st)) (some ([], s))
      (flush_from-Gives s upto (next_second s.st)) refl

closed-Gives : (o : Option (List Output × Session)) → StepGives o [] → Gives (closed o) []
closed-Gives none g = tt
closed-Gives (some (rows, flushed)) g =
    then_out-Gives (some rows) (state_out (state_row flushed)) [] [] g
      (state_out-Gives (state_row flushed))

leave-Gives : (s : Session) → Gives (leave s) []
unfolding leave verdicts
leave-Gives s =
    if_intro (λ o. Gives o []) s.st.live (state_out (state_row s)) (some [])
      (state_out-Gives (state_row s)) refl

finish-Gives : (s : Session) → Gives (finish s) []
unfolding finish verdicts
finish-Gives s =
    if_intro (λ o. Gives o []) s.st.live (closed (flush_seconds s s.st.recv_ts_ns)) (some [])
      (closed-Gives (flush_seconds s s.st.recv_ts_ns) (flush_seconds-Gives s s.st.recv_ts_ns)) refl

abbrev pub IsKraken : Payload → Type 0
IsKraken (kraken is_snapshot bids asks checksum) = Unit
IsKraken (coinbase is_snapshot updates sequence_num) = ⊥

module _ (env : Env) where
  on_frame-verdicts :
      (s : Session) (r : Row) (p : Payload)
      → IsKraken p
      → verdicts (on_frame env s r p).0 ≡ r.src ∷ []
  unfolding on_frame verdicts
  on_frame-verdicts s r (kraken is_snapshot bids asks checksum) k = ground arith
  on_frame-verdicts s r (coinbase is_snapshot updates sequence_num) k = elim k [ ]

  framed-Gives :
      (r : Row) (o : Option (List Output × Session))
      → IsKraken r.payload
      → StepGives o []
      → StepGives (framed env r o) (r.src ∷ [])
  framed-Gives r none k g = tt
  framed-Gives r (some (rows, f)) k g =
      verdicts-append rows (on_frame env f r r.payload).0
      ∙ ap (λ xs. xs ++ verdicts (on_frame env f r r.payload).0) g
      ∙ on_frame-verdicts f r r.payload k

  on_row-Gives :
      (s : Session) (r : Row) → IsKraken r.payload → StepGives (on_row env s r) (r.src ∷ [])
  unfolding on_row
  on_row-Gives s r k =
      framed-Gives r (flush_seconds s r.recv_ts_ns) k (flush_seconds-Gives s r.recv_ts_ns)

  resumed-Gives :
      (rest : Session → Option (List Output)) (o : Option (List Output × Session))
      (l m : List Source)
      → StepGives o l
      → ((s : Session) → Gives (rest s) m)
      → Gives (resumed rest o) (l ++ m)
  resumed-Gives rest none l m g h = tt
  resumed-Gives rest (some (out, next)) l m g h =
      then_out-Gives (some out) (rest next) l m g (h next)

  replay_rows-Gives :
      (key : Key) (s : Session) (rows : List Row)
      → All (λ r. IsKraken r.payload) rows
      → Gives (replay_rows env key s rows) (map (λ r. r.src) rows)
  unfolding replay_rows
  replay_rows-Gives key s [] a = finish-Gives s
  replay_rows-Gives key s (r ∷ rows) a = elim (Bool-cases (key_of r =? key)) [
    | inl same ↦
        rw (same, replay_rows)
          (resumed-Gives (λ n. replay_rows env key n rows) (on_row env s r) (r.src ∷ [])
            (map (λ x. x.src) rows) (on_row-Gives s r a.0) (λ n. replay_rows-Gives key n rows a.1))
    | inr other ↦
        rw (other, replay_rows)
          (then_out-Gives (leave s)
            (resumed (λ n. replay_rows env (key_of r) n rows) (first_row env r)) []
            (r.src ∷ map (λ x. x.src) rows) (leave-Gives s)
            (resumed-Gives (λ n. replay_rows env (key_of r) n rows) (first_row env r) (r.src ∷ [])
              (map (λ x. x.src) rows)
              (on_row-Gives (open_session (lookup (key_of r) env.states) r) r a.0)
              (λ n. replay_rows-Gives (key_of r) n rows a.1)))
  ]

  -- A replay of Kraken frames that does not raise gives one verdict on each frame, in their order,
  -- whatever connections they are of and whether or not a snapshot came before them.
  pub replay_partition-verdicts :
      (rows : List Row) (out : List Output)
      → All (λ r. IsKraken r.payload) rows
      → replay_partition env rows ≡ some out
      → verdicts out ≡ map (λ r. r.src) rows
  unfolding replay_partition verdicts
  replay_partition-verdicts [] out a e = ground (arith, e)
  replay_partition-verdicts (r ∷ rows) out a e =
      subst (λ o. Gives o (r.src ∷ map (λ x. x.src) rows)) e
        (resumed-Gives (λ n. replay_rows env (key_of r) n rows) (first_row env r) (r.src ∷ [])
          (map (λ x. x.src) rows)
          (on_row-Gives (open_session (lookup (key_of r) env.states) r) r a.0)
          (λ n. replay_rows-Gives (key_of r) n rows a.1))
