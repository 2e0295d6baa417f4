-- ===== src/Scd2/Tiling.antt =====
-- Versions that tile time: which of them hold at an instant, and what a close and an append do.
use k2_market_data_platform.Base.{
  ℕ, ◌+◌, ◌≤◌, ◌<◌, ◌≡◌, refl, ◌⊎◌, true, false, ◌&&◌, Option, some, List, [], ◌∷◌, ◌++◌, map, leb,
  ltb, arith, if◌then◌else◌,
}
use k2_market_data_platform.Base.Eq.{string_eq}
use k2_market_data_platform.Scd2.{Version, epoch, forever}
use k2_market_data_platform.Scd2.History.{last_open, close_open}

-- `valid_from <= x AND x < valid_to`: how many versions of a history hold at an instant
abbrev pub holding : {K : Type 0} → ℕ → List (Version K) → ℕ
holding x [] = 0
holding x (v ∷ h) = (if leb v.valid_from x && ltb x v.valid_to then 1 else 0) + holding x h

-- From `a` on each version begins where the one before it ended, and the last one is open.
abbrev pub Tiled : {K : Type 0} → ℕ → ℕ → List (Version K) → Type 0
Tiled now a [] = ⊥
Tiled now a (v ∷ []) =
    (v.valid_from ≡ a) × (v.is_current ≡ true) × (v.valid_to ≡ forever) × (a ≤ now)
Tiled now a (v ∷ w ∷ h) =
    (v.valid_from ≡ a) × (v.is_current ≡ false) × (a ≤ v.valid_to) × Tiled now v.valid_to (w ∷ h)

holding-before :
    {K : Type 0} (now a x : ℕ) (h : List (Version K)) → Tiled now a h → x < a → holding x h ≡ 0
holding-before now a x [] t l = elim t [ ]
holding-before now a x (v ∷ []) t l = ground arith
holding-before now a x (v ∷ w ∷ h) t l = ground (arith, holding-before now v.valid_to x (w ∷ h) t.3)

-- A tiled history holds exactly once at every instant.
pub holding-Tiled :
    {K : Type 0} (now a x : ℕ) (h : List (Version K))
    → Tiled now a h
    → a ≤ x
    → x < forever
    → holding x h ≡ 1
holding-Tiled now a x [] t l u = elim t [ ]
holding-Tiled now a x (v ∷ []) t l u = ground arith
holding-Tiled now a x (v ∷ w ∷ h) t l u =
    ground (
      arith,
      holding-before now v.valid_to x (w ∷ h) t.3,
      holding-Tiled now v.valid_to x (w ∷ h) t.3,
    )

pub Tiled-later :
    {K : Type 0} (now later a : ℕ) (h : List (Version K))
    → Tiled now a h
    → now ≤ later
    → Tiled later a h
Tiled-later now later a [] t l = t
Tiled-later now later a (v ∷ []) t l = (t.0, t.1, t.2, omega arith)
Tiled-later now later a (v ∷ w ∷ h) t l =
    (t.0, t.1, t.2, Tiled-later now later v.valid_to (w ∷ h) t.3 l)

-- closing the last version and opening the next keeps a tiling
pub Tiled-next :
    {K : Type 0} (now ts a : ℕ) (h : List (Version K)) (w : Version K)
    → Tiled now a h
    → now ≤ ts
    → w.valid_from ≡ ts
    → w.is_current ≡ true
    → w.valid_to ≡ forever
    → Tiled ts a (map (close_open true ts) h ++ w ∷ [])
Tiled-next now ts a [] w t l p q r = elim t [ ]
Tiled-next now ts a (v ∷ []) w t l p q r = ground arith
Tiled-next now ts a (v ∷ u ∷ h) w t l p q r =
    ground (arith, Tiled-next now ts v.valid_to (u ∷ h) w t.3)

pub close_open-false :
    {K : Type 0} (ts : ℕ) (h : List (Version K)) → map (close_open false ts) h ≡ h
close_open-false ts [] = refl
close_open-false ts (v ∷ h) = ground (arith, close_open-false ts h)

pub last_open-Tiled :
    {K : Type 0} (now a : ℕ) (found : Option (Version K)) (h : List (Version K))
    → Tiled now a h
    → (v : Version K) × (last_open found h ≡ some v)
last_open-Tiled now a found [] t = elim t [ ]
last_open-Tiled now a found (v ∷ []) t = (v, ground arith)
last_open-Tiled now a found (v ∷ w ∷ h) t =
    last_open-Tiled now v.valid_to (if v.is_current then some v else found) (w ∷ h) t.3

-- the version that a change opens
abbrev pub Opens : {K : Type 0} → ℕ → Version K → Type 0
Opens from w = (w.valid_from ≡ from) × (w.is_current ≡ true) × (w.valid_to ≡ forever)

abbrev pub IsHistory : {K : Type 0} → ℕ → List (Version K) → Type 0
IsHistory now h = (h ≡ []) ⊎ Tiled now epoch h
