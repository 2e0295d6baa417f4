-- ===== src/Books/Seconds.antt =====
-- The seconds that a live session emits: one after the other, none left out and none twice.
use k2_market_data_platform.Base.{
  ℕ, zero, suc, ◌+◌, ◌-◌, ◌*◌, ◌/◌, max, ◌≤◌, ◌≡◌, refl, sym, ap, ◌∙◌, subst, Bool, true, false,
  Option-cases, inl, inr, some, List, [], ◌∷◌, ◌++◌, map, ltb, if◌then◌else◌, arith,
}
use k2_market_data_platform.Books.{ns, StateRow, Running, Session, Output, verdict, book_row, state}
use k2_market_data_platform.Books.Flush.{
  snapshot_row, seconds_to, second_of, next_second, walked, marked, flush_from, flush_seconds,
}

-- the seconds of the rows among some outputs, and the states
unfoldable pub seconds : List Output → List ℕ
seconds [] = []
seconds (book_row b ∷ out) = b.second ∷ seconds out
seconds (verdict src ok ∷ out) = seconds out
seconds (state row ∷ out) = seconds out

unfoldable pub states_of : List Output → List StateRow
states_of [] = []
states_of (state row ∷ out) = row ∷ states_of out
states_of (book_row b ∷ out) = states_of out
states_of (verdict src ok ∷ out) = states_of out

-- From `k` on, one after the other, up to and without `m`.
abbrev pub Consecutive : ℕ → List ℕ → ℕ → Type 0
Consecutive k [] m = k ≡ m
Consecutive k (x ∷ xs) m = (x ≡ k) × Consecutive (suc k) xs m

pub Consecutive-append :
    (k m n : ℕ) (xs ys : List ℕ)
    → Consecutive k xs m
    → Consecutive m ys n
    → Consecutive k (xs ++ ys) n
Consecutive-append k m n [] ys h j = subst (λ i. Consecutive i ys n) (sym h) j
Consecutive-append k m n (x ∷ xs) ys h j = (h.0, Consecutive-append (suc k) m n xs ys h.1 j)

pub Consecutive-le : (k m : ℕ) (xs : List ℕ) → Consecutive k xs m → k ≤ m
Consecutive-le k m [] h = omega arith
Consecutive-le k m (x ∷ xs) h = omega (arith, Consecutive-le (suc k) m xs h.1)

pub seconds-append : (a b : List Output) → seconds (a ++ b) ≡ seconds a ++ seconds b
unfolding seconds
seconds-append [] b = refl
seconds-append (book_row r ∷ a) b = ap (λ xs. r.second ∷ xs) (seconds-append a b)
seconds-append (verdict src ok ∷ a) b = seconds-append a b
seconds-append (state row ∷ a) b = seconds-append a b

pub states_of-append : (a b : List Output) → states_of (a ++ b) ≡ states_of a ++ states_of b
unfolding states_of
states_of-append [] b = refl
states_of-append (state r ∷ a) b = ap (λ xs. r ∷ xs) (states_of-append a b)
states_of-append (verdict src ok ∷ a) b = states_of-append a b
states_of-append (book_row row ∷ a) b = states_of-append a b

-- `n` numbers from `k` on
unfoldable pub span : ℕ → ℕ → List ℕ
span k zero = []
span k (suc n) = k ∷ span (suc k) n

-- the starts of `n` seconds from `k` on
abbrev pub starts : ℕ → ℕ → List ℕ
starts k n = map (λ i. i * ns) (span k n)

span-Consecutive : (k n m : ℕ) → k + n ≡ m → Consecutive k (span k n) m
unfolding span
span-Consecutive k zero m e = omega (arith, e)
span-Consecutive k (suc n) m e = (refl, span-Consecutive (suc k) n m (omega (arith, e)))

-- one round of the loop, whether it goes on or not
seconds_to-step :
    (k b : ℕ) (go : Bool) (rest : List ℕ × ℕ)
    → ltb (k * ns) (b * ns) ≡ go
    → rest ≡ (starts (suc k) (b - suc k), max (suc k) b * ns)
    → ◌≡◌ {A = List ℕ × ℕ}
        (if go then (k * ns ∷ rest.0, rest.1) else ([], k * ns))
        (starts k (b - k), max k b * ns)
unfolding span
seconds_to-step k b true rest t e =
    let more : b - k ≡ suc (b - suc k) = ground (arith, t) in
    let top : max (suc k) b ≡ max k b = ground (arith, t) in rw (e, more, top) refl
seconds_to-step k b false rest t e =
    let over : b - k ≡ 0 = ground (arith, t) in
    let top : max k b ≡ k = ground (arith, t) in rw (over, top) refl

-- the loop emits the seconds from the first to the boundary, and stops at the greater of the two
seconds_to-exact :
    (fuel k b : ℕ)
    → b ≤ k + fuel
    → seconds_to fuel (k * ns) (b * ns) ≡ (starts k (b - k), max k b * ns)
unfolding seconds_to span
seconds_to-exact zero k b h =
    let over : b - k ≡ 0 = omega (arith, h) in
    let top : max k b ≡ k = omega (arith, h) in rw (over, top) refl
seconds_to-exact (suc fuel) k b h =
    let next : k * ns + ns ≡ suc k * ns = omega arith in
    seconds_to-step k b (ltb (k * ns) (b * ns)) (seconds_to fuel (k * ns + ns) (b * ns)) refl (
      ap (λ i. seconds_to fuel i (b * ns)) next
      ∙ seconds_to-exact fuel (suc k) b (omega (arith, h)))

walked-exact :
    (k upto : ℕ) → walked upto (k * ns) ≡ (starts k (upto / ns - k), max k (upto / ns) * ns)
unfolding walked second_of
walked-exact k upto = seconds_to-exact (upto / ns) k (upto / ns) (omega arith)

-- a session that has a next second to emit
abbrev pub Due : Session → ℕ → Type 0
Due s k = (s.st.live ≡ true) × (next_second s.st ≡ some (k * ns))

pub seconds-map :
    (s : Session) (xs : List ℕ) → seconds (map (λ i. book_row (snapshot_row s (i * ns))) xs) ≡ xs
unfolding seconds snapshot_row
seconds-map s [] = refl
seconds-map s (x ∷ xs) =
    let whole : x * ns / ns ≡ x = omega arith in
    ap (λ y. y ∷ seconds (map (λ i. book_row (snapshot_row s (i * ns))) xs)) whole
    ∙ ap (λ ys. x ∷ ys) (seconds-map s xs)

pub states_of-map :
    (s : Session) (xs : List ℕ) → states_of (map (λ i. book_row (snapshot_row s (i * ns))) xs) ≡ []
unfolding states_of
states_of-map s [] = refl
states_of-map s (x ∷ xs) = states_of-map s xs

map-starts :
    (s : Session) (xs : List ℕ)
    → map (λ second. book_row (snapshot_row s second)) (map (λ i. i * ns) xs)
      ≡ map (λ i. book_row (snapshot_row s (i * ns))) xs
map-starts s [] = refl
map-starts s (x ∷ xs) = ap (λ ys. book_row (snapshot_row s (x * ns)) ∷ ys) (map-starts s xs)

-- the rows of a flush that goes up to an instant, from the second `k` on
abbrev pub flushed_rows : Session → ℕ → ℕ → List Output
flushed_rows s upto k =
    map (λ second. book_row (snapshot_row s (second * ns))) (span k (upto / ns - k))

-- the second that is due after it
abbrev pub due_after : ℕ → ℕ → ℕ
due_after k upto = max k (upto / ns)

-- the session that it leaves
abbrev pub flushed : Session → ℕ → ℕ → Session
flushed s upto k = record s {
  st = record (s.st) { last_second_ns = some ((due_after k upto - 1) * ns) };
}

-- the mark is the second before the one that the walk stopped at
marked-exact :
    (st : Running) (k m : ℕ)
    → next_second st ≡ some (k * ns)
    → 1 ≤ k
    → k ≤ m
    → marked st (m * ns) ≡ record st { last_second_ns = some ((m - 1) * ns) }
unfolding next_second marked
marked-exact st k m e one le = elim (Option-cases st.last_second_ns) [
  | inl none_yet ↦ ground (arith, none_yet, e, one, le)
  | inr (last, held) ↦ ground (arith, held, e, one, le)
]

-- The flush of a live session that is due the second k, 1 or later, raises nothing: it emits a row
-- of its book for each second from k on and before the second of the given instant, in order, none
-- where that second is not after k. It marks as the session's last second the one before the later
-- of the two, and changes nothing else of the session.
pub flush_seconds-exact :
    (s : Session) (k upto : ℕ)
    → Due s k
    → 1 ≤ k
    → flush_seconds s upto
      ≡ some (
        map (λ second. book_row (snapshot_row s (second * ns))) (span k (upto / ns - k)),
        record s { st = record (s.st) { last_second_ns = some ((max k (upto / ns) - 1) * ns) } },
      )
unfolding flush_seconds
flush_seconds-exact s k upto h one =
    ap (λ b. if b then flush_from s upto (next_second s.st) else some ([], s)) h.0
    ∙ ap (flush_from s upto) h.1
    ∙ ap
        (λ w.
          some (
            map (λ second. book_row (snapshot_row s second)) w.0,
            record s { st = marked s.st w.1 },
          ))
        (walked-exact k upto)
    ∙ ap (λ rows. some (rows, record s { st = marked s.st (max k (upto / ns) * ns) }))
        (map-starts s (span k (upto / ns - k)))
    ∙ ap (λ st. some (flushed_rows s upto k, record s { st = st }))
        (marked-exact s.st k (max k (upto / ns)) h.1 one (omega arith))

-- what a step of a due session does: it emits the seconds from the next one on, and is due `m` then
abbrev pub Emits : ℕ → List Output → Session → ℕ → Type 0
Emits k out s m = Consecutive k (seconds out) m × Due s m × (states_of out ≡ [])

flushed-Due :
    (s : Session) (k upto : ℕ) → Due s k → 1 ≤ k → Due (flushed s upto k) (due_after k upto)
unfolding next_second
flushed-Due s k upto h one = (h.0, ap some (omega (arith, one)))

-- a flush emits every second that is due, and none else
pub flush_seconds-Emits :
    (s : Session) (k upto : ℕ)
    → Due s k
    → 1 ≤ k
    → Emits k (flushed_rows s upto k) (flushed s upto k) (due_after k upto)
flush_seconds-Emits s k upto h one = (
  subst (λ xs. Consecutive k xs (due_after k upto)) (sym (seconds-map s (span k (upto / ns - k))))
      (span-Consecutive k (upto / ns - k) (due_after k upto) (omega arith)),
  flushed-Due s k upto h one,
  states_of-map s (span k (upto / ns - k)),
)
