-- ===== src/Book/Depth.antt =====
-- How deep a book is after the frames of a connection.
use k2_market_data_platform.Base.{ℕ, ◌≤◌, ◌≡◌, List, [], ◌∷◌, if◌then◌else◌, min, if_intro, arith}
use k2_market_data_platform.Base.Int.{ℤ, pos, ltb_ℤ, ◌==ℤ◌}
use k2_market_data_platform.Base.Eq.{int_eq}
use k2_market_data_platform.Base.Dict.{insert, erase, IsDict, insert-IsDict}
use k2_market_data_platform.Book.{
  Book, Levels, Side, bid, ask, Frame, clear, set_level, apply, truncate, depth, apply_all,
  kraken_apply, kraken_replay,
}
use k2_market_data_platform.Book.Levels.{erase-IsDict, length-truncate_side, truncate_side-IsDict}

abbrev pub IsBook : Book → Type 0
IsBook b = IsDict b.bids × IsDict b.asks

set_level-IsDict : (px qty : ℤ) (m : Levels) → IsDict m → IsDict (set_level px qty m)
unfolding set_level
set_level-IsDict px qty m d =
    if_intro IsDict (qty ==ℤ pos 0) (erase px m) (insert px qty m) (erase-IsDict px m d)
      (insert-IsDict px qty m d)

apply_all-IsBook :
    (b : Book) (side : Side) (levels : List (ℤ × ℤ)) → IsBook b → IsBook (apply_all b side levels)
unfolding apply_all apply
apply_all-IsBook b side [] h = h
apply_all-IsBook b bid ((px, qty) ∷ levels) h =
    apply_all-IsBook (apply b bid px qty) bid levels (set_level-IsDict px qty b.bids h.0, h.1)
apply_all-IsBook b ask ((px, qty) ∷ levels) h =
    apply_all-IsBook (apply b ask px qty) ask levels (h.0, set_level-IsDict px qty b.asks h.1)

truncate-IsBook : (b : Book) (limit : ℕ) → IsBook b → IsBook (truncate b limit)
unfolding truncate
truncate-IsBook b limit h = (
  truncate_side-IsDict ltb_ℤ limit b.bids h.0,
  truncate_side-IsDict (λ p q. ltb_ℤ q p) limit b.asks h.1,
)

truncate-depth : (b : Book) (limit : ℕ) → IsBook b → depth (truncate b limit) ≡ min (depth b) limit
unfolding truncate depth
truncate-depth b limit h = ground (
  arith,
  length-truncate_side ltb_ℤ limit b.bids h.0,
  length-truncate_side (λ p q. ltb_ℤ q p) limit b.asks h.1,
)

module _ (limit : ℕ) where
  -- the book of a frame before the truncation
  abbrev pub folded : Book → Frame → Book
  folded b f = apply_all (apply_all (if f.is_snapshot then clear b else b) bid f.bids) ask f.asks

  folded-IsBook : (b : Book) (f : Frame) → IsBook b → IsBook (folded b f)
  unfolding clear
  folded-IsBook b f h =
      apply_all-IsBook (apply_all (if f.is_snapshot then clear b else b) bid f.bids) ask f.asks (
        apply_all-IsBook (if f.is_snapshot then clear b else b) bid f.bids
          (if_intro IsBook f.is_snapshot (clear b) b (tt, tt) h))

  kraken_apply-IsBook : (b : Book) (f : Frame) → IsBook b → IsBook (kraken_apply limit b f)
  unfolding kraken_apply
  kraken_apply-IsBook b f h = truncate-IsBook (folded b f) limit (folded-IsBook b f h)

  -- After any frames of a connection, snapshots and updates in any order, a book that kept to the
  -- subscribed depth keeps to it, and holds no price twice on a side.
  pub kraken_replay-depth :
      (b : Book) (frames : List Frame)
      → IsBook b
      → depth b ≤ limit
      → (depth (kraken_replay limit b frames) ≤ limit) × IsBook (kraken_replay limit b frames)
  unfolding kraken_replay kraken_apply
  kraken_replay-depth b [] h le = (le, h)
  kraken_replay-depth b (f ∷ frames) h le =
      kraken_replay-depth (kraken_apply limit b f) frames (kraken_apply-IsBook b f h)
        (omega (arith, truncate-depth (folded b f) limit (folded-IsBook b f h)))
