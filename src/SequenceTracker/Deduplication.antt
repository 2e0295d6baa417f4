-- ===== src/SequenceTracker/Deduplication.antt =====
-- `DeduplicationCache`: the message ids of a time window.
use k2_market_data_platform.Base.{
  ℕ, ◌+◌, ◌≤◌, ◌≡◌, refl, sym, ap, ◌∙◌, String, Bool, true, false, not, ◌&&◌, Option, none, some,
  List, [], ◌∷◌, All, subst, if_intro, if◌then◌else◌, ltb, arith,
}
use k2_market_data_platform.Base.Eq.{◌=?◌, string_eq}
use k2_market_data_platform.Base.Dict.{Dict, lookup, insert, lookup-insert, IsDict}

-- in microseconds, as `last_cleanup` and the window
abbrev pub cleanup_interval : ℕ
cleanup_interval = 600000000

pub record DeduplicationCache : Type 0 where
  pub cache : Dict String ℕ
  pub window : ℕ
  pub last_cleanup : ℕ

-- `timestamp < now - window`
abbrev pub is_expired : ℕ → ℕ → ℕ → Bool
is_expired window now timestamp = ltb (timestamp + window) now

-- the entries that the deletions leave
unfoldable pub remaining : ℕ → ℕ → Dict String ℕ → Dict String ℕ
remaining window now [] = []
remaining window now ((id, timestamp) ∷ cache) =
    let rest = remaining window now cache in
    if is_expired window now timestamp then rest else (id, timestamp) ∷ rest

unfoldable pub cleanup : DeduplicationCache → ℕ → DeduplicationCache
cleanup c now = record c { cache = remaining c.window now c.cache; last_cleanup = now }

-- whether a request at this time cleans up first
abbrev pub is_due : DeduplicationCache → ℕ → Bool
is_due c now = ltb (c.last_cleanup + cleanup_interval) now

abbrev pub maybe_cleanup : DeduplicationCache → ℕ → DeduplicationCache
maybe_cleanup c now = if is_due c now then cleanup c now else c

-- the answer from what the cache holds of the id
abbrev pub answer : DeduplicationCache → String → ℕ → Option ℕ → Bool × DeduplicationCache
answer c id now (some timestamp) = (true, c)
answer c id now none = (false, record c { cache = insert id now c.cache })

unfoldable pub is_duplicate : DeduplicationCache → String → ℕ → Bool × DeduplicationCache
is_duplicate c id now = let kept = maybe_cleanup c now in answer kept id now (lookup id kept.cache)

-- Requests are ids with the times they come at.
unfoldable pub answers : DeduplicationCache → List (String × ℕ) → List Bool
answers c [] = []
answers c ((id, now) ∷ requests) =
    (is_duplicate c id now).0 ∷ answers (is_duplicate c id now).1 requests

lookup-remaining :
    (window now : ℕ) (id : String) (cache : Dict String ℕ)
    → IsDict cache
    → lookup id (remaining window now cache) ≡ elim (lookup id cache) [
      | none ↦ none
      | some t ↦ if is_expired window now t then none else some t
    ]
unfolding lookup remaining
lookup-remaining window now id [] h = refl
lookup-remaining window now id ((j, t) ∷ cache) h =
    ground (arith, lookup-remaining window now id cache h.1, string_eq.beq_iff j id, h.0)

-- An id counts as a duplicate where the cache holds it, unless the request cleans up first and the
-- entry is older than the window: an older entry counts until a cleanup.
pub is_duplicate-expired :
    (c : DeduplicationCache) (id : String) (now : ℕ)
    → IsDict c.cache
    → (is_duplicate c id now).0 ≡ elim (lookup id c.cache) [
      | none ↦ false
      | some t ↦ not (is_due c now && is_expired c.window now t)
    ]
unfolding is_duplicate cleanup
is_duplicate-expired c id now h = ground (arith, lookup-remaining c.window now id c.cache h)

-- Which ids of a list stand in it before.
abbrev pub contains : String → List String → Bool
contains id [] = false
contains id (x ∷ xs) = if x =? id then true else contains id xs

abbrev pub repeats : List String → List (String × ℕ) → List Bool
repeats seen [] = []
repeats seen ((id, now) ∷ requests) = contains id seen ∷ repeats (id ∷ seen) requests

abbrev is_some : Option ℕ → Bool
is_some none = false
is_some (some t) = true

module _ (start window : ℕ) where
  abbrev Recent : Dict String ℕ → Type 0
  Recent cache = All (λ e. start ≤ e.1) cache

  -- the requests come within one window
  abbrev pub Within : List (String × ℕ) → Type 0
  Within requests = All (λ r. (start ≤ r.1) × (r.1 ≤ start + window)) requests

  remaining-Recent :
      (now : ℕ) (cache : Dict String ℕ)
      → now ≤ start + window
      → Recent cache
      → remaining window now cache ≡ cache
  unfolding remaining
  remaining-Recent now [] le r = refl
  remaining-Recent now ((j, t) ∷ cache) le r =
      ground (arith, remaining-Recent now cache le r.1, r.0, le)

  insert-Recent :
      (id : String) (now : ℕ) (cache : Dict String ℕ)
      → start ≤ now
      → Recent cache
      → Recent (insert id now cache)
  unfolding insert
  insert-Recent id now [] le r = (le, tt)
  insert-Recent id now ((j, t) ∷ cache) le r =
      ground (arith, insert-Recent id now cache le r.1, r.0, r.1, le)

  maybe_cleanup-Recent :
      (c : DeduplicationCache) (now : ℕ)
      → c.window ≡ window
      → now ≤ start + window
      → Recent c.cache
      → (maybe_cleanup c now).cache ≡ c.cache
  unfolding cleanup
  maybe_cleanup-Recent c now w le r = ground (arith, remaining-Recent now c.cache le r, w)

  -- a request within the window, by what the cache holds of its id
  is_duplicate-held :
      (c : DeduplicationCache) (id : String) (now : ℕ)
      → c.window ≡ window
      → now ≤ start + window
      → Recent c.cache
      → ((is_duplicate c id now).0 ≡ is_some (lookup id c.cache))
        × ((is_duplicate c id now).1.cache
            ≡ (if is_some (lookup id c.cache) then c.cache else insert id now c.cache))
        × ((is_duplicate c id now).1.window ≡ window)
  unfolding is_duplicate cleanup
  is_duplicate-held c id now w le r = ground (arith, remaining-Recent now c.cache le r, w)

  abbrev Knows : DeduplicationCache → List String → Type 0
  Knows c seen = (id : String) → is_some (lookup id c.cache) ≡ contains id seen

  is_duplicate-Knows :
      (c : DeduplicationCache) (seen : List String) (id : String) (now : ℕ)
      → (cache : Dict String ℕ)
      → cache ≡ (if is_some (lookup id c.cache) then c.cache else insert id now c.cache)
      → Knows c seen
      → (j : String) → is_some (lookup j cache) ≡ contains j (id ∷ seen)
  is_duplicate-Knows c seen id now cache e k j =
      ground (arith, e, k j, k id, lookup-insert id j now c.cache, string_eq.beq_iff id j)

  held-Recent :
      (c : DeduplicationCache) (id : String) (now : ℕ) (cache : Dict String ℕ)
      → cache ≡ (if is_some (lookup id c.cache) then c.cache else insert id now c.cache)
      → start ≤ now
      → Recent c.cache
      → Recent cache
  held-Recent c id now cache e le r = subst Recent (sym e) (
      if_intro Recent (is_some (lookup id c.cache)) c.cache (insert id now c.cache) r
        (insert-Recent id now c.cache le r))

  -- While all requests come within one window, and the cache knows the ids that came since its
  -- start, a request is called a duplicate exactly where its id came before.
  pub answers-repeats :
      (c : DeduplicationCache) (seen : List String) (requests : List (String × ℕ))
      → c.window ≡ window
      → Recent c.cache
      → ((id : String) → is_some (lookup id c.cache) ≡ contains id seen)
      → Within requests
      → answers c requests ≡ repeats seen requests
  unfolding answers
  answers-repeats c seen [] w r k a = refl
  answers-repeats c seen ((id, now) ∷ requests) w r k a =
      let held = is_duplicate-held c id now w a.0.1 r in
      let next = (is_duplicate c id now).1 in
      let rest =
        answers-repeats next (id ∷ seen) requests held.2
          (held-Recent c id now next.cache held.1 a.0.0 r)
          (is_duplicate-Knows c seen id now next.cache held.1 k) a.1 in
      ap (λ b. b ∷ answers next requests) (held.0 ∙ k id) ∙ ap (λ bs. contains id seen ∷ bs) rest
