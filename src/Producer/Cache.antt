-- ===== src/Producer/Cache.antt =====
-- The cache of serializers: what it answers, and which subjects it keeps.
use k2_market_data_platform.Base.{
  ℕ, zero, suc, ◌<◌, ◌≡◌, refl, sym, ap, ◌∙◌, subst, String, true, false, Bool-cases, inl, inr,
  Option, none, some, List, [], ◌∷◌, map, length, length-take-le, take, if◌then◌else◌, ltb, ltb→lt,
  arith,
}
use k2_market_data_platform.Base.Eq.{◌=?◌, string_eq, beq_eq}
use k2_market_data_platform.Base.Dict.{Dict, lookup, lookup-erase, erase}
use k2_market_data_platform.Producer.Recent.{
  without, has, Unique, has-without_self, without-Unique, take-without_fewer, take-without_short,
  take-without_present,
}
use k2_market_data_platform.Producer.{
  move_to_end, get_found, get, evict, set, created, or_create, get_serializer,
}

-- `subjects` asked for one after the other
module _ {V : Type 0} (max_size : ℕ) (registry : String → Option V) where
  abbrev pub serve : List String → Dict String V → List (Option V) × Dict String V
  serve [] cache = ([], cache)
  serve (subject ∷ subjects) cache =
      let first = get_serializer max_size registry subject cache in
      let rest = serve subjects first.1 in (first.0 ∷ rest.0, rest.1)

-- the subjects that the registry knows, the one asked for last first, each one once
module _ {V : Type 0} (registry : String → Option V) where
  abbrev add_recent : Option V → String → List String → List String
  add_recent none k ks = ks
  add_recent (some v) k ks = k ∷ without k ks

  abbrev pub recent : List String → List String → List String
  recent [] ks = ks
  recent (k ∷ subjects) ks = recent subjects (add_recent (registry k) k ks)

abbrev pub keys_of : {V : Type 0} → Dict String V → List String
keys_of [] = []
keys_of ((k, v) ∷ d) = k ∷ keys_of d

module _ {V : Type 0} where
  keys-erase : (k : String) (d : Dict String V) → keys_of (erase k d) ≡ without k (keys_of d)
  unfolding erase
  keys-erase k [] = refl
  keys-erase k ((j, v) ∷ d) = ground (arith, keys-erase k d)

  lookup-none : (k : String) (d : Dict String V) → lookup k d ≡ none → has k (keys_of d) ≡ false
  unfolding lookup
  lookup-none k [] h = refl
  lookup-none k ((j, v) ∷ d) h = ground (arith, h, lookup-none k d)

  lookup-some :
      (k : String) (v : V) (d : Dict String V) → lookup k d ≡ some v → has k (keys_of d) ≡ true
  unfolding lookup
  lookup-some k v [] h = cc
  lookup-some k v ((j, w) ∷ d) h = ground (arith, h, lookup-some k v d)

  length-keys : (d : Dict String V) → length (keys_of d) ≡ length d
  length-keys [] = refl
  length-keys ((j, v) ∷ d) = ap suc (length-keys d)

  keys-evict :
      (n : ℕ) (d : Dict String V) → length d ≡ suc n → keys_of (evict d) ≡ take n (keys_of d)
  unfolding evict
  keys-evict n [] h = absurd (omega (arith, h))
  keys-evict n ((j, v) ∷ []) h = ground (arith, h)
  keys-evict zero ((j, v) ∷ ((i, w) ∷ d)) h = absurd (omega (arith, h))
  keys-evict (suc n) ((j, v) ∷ ((i, w) ∷ d)) h =
      ap (λ ks. j ∷ ks) (keys-evict n ((i, w) ∷ d) (omega (arith, h)))

  lookup-evict :
      (k : String) (v : V) (d : Dict String V) → lookup k (evict d) ≡ some v → lookup k d ≡ some v
  unfolding evict lookup
  lookup-evict k v [] h = h
  lookup-evict k v (e ∷ []) h = cc
  lookup-evict k v ((j, u) ∷ ((i, w) ∷ d)) h = ground (arith, h, lookup-evict k v ((i, w) ∷ d))

module _ {V : Type 0} (max_size : ℕ) (registry : String → Option V) where
  -- Every entry is what the registry gives, and the keys are the subjects used last.
  record Cached (cache : Dict String V) (ks : List String) : Type 0 where
    true_to : (k : String) (v : V) → lookup k cache ≡ some v → registry k ≡ some v
    keys_are : keys_of cache ≡ take max_size ks
    distinct : Unique ks

  true-cons :
      (subject : String) (v : V) (d : Dict String V)
      → registry subject ≡ some v
      → ((k : String) (w : V) → lookup k d ≡ some w → registry k ≡ some w)
      → (k : String) (w : V) → lookup k ((subject, v) ∷ d) ≡ some w
      → registry k ≡ some w
  unfolding lookup
  true-cons subject v d r h k w f = elim (Bool-cases (subject =? k)) [
    | inl same ↦
        ap registry (sym (beq_eq subject k same))
        ∙ r
        ∙ subst (λ b. (if b then some v else lookup k d) ≡ some w) same f
    | inr other ↦ h k w (subst (λ b. (if b then some v else lookup k d) ≡ some w) other f)
  ]

  moved-Cached :
      (subject : String) (v : V) (cache : Dict String V) (ks : List String)
      → Cached cache ks
      → lookup subject cache ≡ some v
      → Cached (move_to_end subject v cache) (subject ∷ without subject ks)
  unfolding lookup
  moved-Cached subject v cache ks h e = record {
    true_to = λ k w f.
        true-cons subject v (erase subject cache) (h.true_to subject v e)
          (λ j u g. h.true_to j u (kept j u g)) k w f;
    keys_are =
        ap (λ rs. subject ∷ rs) (keys-erase subject cache ∙ ap (without subject) h.keys_are)
        ∙ cut max_size (ap (has subject) (sym h.keys_are) ∙ lookup-some subject v cache e);
    distinct = (has-without_self subject ks, without-Unique subject ks h.distinct);
  }
    where
      kept :
          (j : String) (u : V) → lookup j (erase subject cache) ≡ some u → lookup j cache ≡ some u
      kept j u g = ground (arith, g, lookup-erase subject j cache)

      cut :
          (n : ℕ)
          → has subject (take n ks) ≡ true
          → subject ∷ without subject (take n ks) ≡ take n (subject ∷ without subject ks)
      cut zero f = cc
      cut (suc n) f = ap (λ rs. subject ∷ rs) (take-without_present subject n ks h.distinct f)

  set-Cached :
      (subject : String) (v : V) (cache : Dict String V) (ks : List String)
      → Cached cache ks
      → lookup subject cache ≡ none
      → registry subject ≡ some v
      → Cached (set max_size subject v cache) (subject ∷ without subject ks)
  unfolding set
  set-Cached subject v cache ks h e r =
      rw (e, set)
        (elim (Bool-cases (ltb max_size (suc (length cache)))) [
          | inl full ↦ rw full (record {
            true_to = λ k w f. true-cons subject v cache r h.true_to k w (lookup-evict k w _ f);
            keys_are =
                keys-evict max_size ((subject, v) ∷ cache)
                  (ap suc (omega (arith, size, length-take-le max_size ks, ltb→lt _ _ full)))
                ∙ ap (λ rs. take max_size (subject ∷ rs)) h.keys_are
                ∙ fill_up max_size absent;
            distinct = next-Unique;
          })
          | inr room ↦ rw room (record {
            true_to = true-cons subject v cache r h.true_to;
            keys_are =
                ap (λ rs. subject ∷ rs) h.keys_are
                ∙ fits max_size absent (ground (arith, size, room));
            distinct = next-Unique;
          })
        ])
    where
      size : length cache ≡ length (take max_size ks)
      size = sym (length-keys cache) ∙ ap length h.keys_are

      absent : has subject (take max_size ks) ≡ false
      absent = ap (has subject) (sym h.keys_are) ∙ lookup-none subject cache e

      next-Unique : Unique (subject ∷ without subject ks)
      next-Unique = (has-without_self subject ks, without-Unique subject ks h.distinct)

      fill_up :
          (n : ℕ)
          → has subject (take n ks) ≡ false
          → take n (subject ∷ take n ks) ≡ take n (subject ∷ without subject ks)
      fill_up zero a = refl
      fill_up (suc n) a = ap (λ rs. subject ∷ rs) (take-without_fewer subject n ks a)

      fits :
          (n : ℕ)
          → has subject (take n ks) ≡ false
          → length (take n ks) < n
          → subject ∷ take n ks ≡ take n (subject ∷ without subject ks)
      fits zero a few = absurd (omega (arith, few))
      fits (suc n) a few =
          ap (λ rs. subject ∷ rs) (take-without_short subject n ks a (omega (arith, few)))

  get_serializer-answers :
      (subject : String) (cache : Dict String V) (ks : List String)
      → Cached cache ks
      → ((get_serializer max_size registry subject cache).0 ≡ registry subject)
        × Cached
            (get_serializer max_size registry subject cache).1
            (add_recent registry (registry subject) subject ks)
  unfolding get_serializer get
  get_serializer-answers subject cache ks h = by_lookup (lookup subject cache) refl
    where
      by_registry :
          lookup subject cache ≡ none
          → (o : Option V) → registry subject ≡ o
          → ((created max_size subject o cache).0 ≡ o)
            × Cached (created max_size subject o cache).1 (add_recent registry o subject ks)
      by_registry e none r = (refl, h)
      by_registry e (some v) r = (refl, set-Cached subject v cache ks h e r)

      by_lookup :
          (o : Option V)
          → lookup subject cache ≡ o
          → ((or_create max_size registry subject (get_found subject o cache)).0 ≡ registry subject)
            × Cached
                (or_create max_size registry subject (get_found subject o cache)).1
                (add_recent registry (registry subject) subject ks)
      by_lookup none e = by_registry e (registry subject) refl
      by_lookup (some v) e = (
        sym (h.true_to subject v e),
        subst (λ o. Cached (move_to_end subject v cache) (add_recent registry o subject ks))
            (sym (h.true_to subject v e)) (moved-Cached subject v cache ks h e),
      )

  serve-answers :
      (subjects : List String) (cache : Dict String V) (ks : List String)
      → Cached cache ks
      → ((serve max_size registry subjects cache).0 ≡ map registry subjects)
        × Cached (serve max_size registry subjects cache).1 (recent registry subjects ks)
  serve-answers [] cache ks h = (refl, h)
  serve-answers (k ∷ subjects) cache ks h =
      let first = get_serializer-answers k cache ks h in
      let rest =
        serve-answers subjects (get_serializer max_size registry k cache).1
          (add_recent registry (registry k) k ks) first.1 in
      (
        ap
              (λ a.
                a
                ∷ (serve max_size registry subjects (get_serializer max_size registry k cache).1).0)
              first.0
            ∙ ap (λ others. registry k ∷ others) rest.0,
        rest.1,
      )

  -- However the subjects come, each one is answered as the registry answers it, and the cache,
  -- which is empty at first, keeps those known subjects that were asked for last, as many as it may
  -- hold. The registry answers a subject always alike.
  pub serve-recent :
      (subjects : List String)
      → ((serve max_size registry subjects []).0 ≡ map registry subjects)
        × (keys_of (serve max_size registry subjects []).1
            ≡ take max_size (recent registry subjects []))
  unfolding lookup
  serve-recent subjects =
      let h =
        serve-answers subjects [] []
          (record { true_to = λ k v e. cc; keys_are = nothing_taken max_size; distinct = tt }) in
      (h.0, h.1.keys_are)
    where
      nothing_taken : (n : ℕ) → keys_of {V = V} [] ≡ take n []
      nothing_taken zero = refl
      nothing_taken (suc n) = refl
