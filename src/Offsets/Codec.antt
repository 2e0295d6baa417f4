-- ===== src/Offsets/Codec.antt =====
-- docker/lake/offsets.py: `encode` and `decode`, the offset map as the JSON text that Spark's Kafka
-- source and the snapshot summary hold. `json`, `str` and `int` are Python's, and are parameters.
use mathlib.Core.Option
use k2_market_data_platform.Base.{
  ℕ, String, ◌≡◌, ◌∙◌, ap, sym, refl, Bool, Option, none, some, [], ◌∷◌, All, arith,
}
use k2_market_data_platform.Base.Int.{ℤ}
use k2_market_data_platform.Base.Eq.{Eq, string_eq, nat_eq}
use k2_market_data_platform.Base.Dict.{Dict, IsDict, lookup, insert, lookup-insert, insert-IsDict}
use k2_market_data_platform.Base.Sort.{sort, lookup-sort, sort-IsDict}
use k2_market_data_platform.Offsets.{
  Offsets, Partitions, parts_at, offset_at, IsOffsets, parts_at-IsDict,
}
use k2_market_data_platform.Offsets.Evicted.{item_before}

-- What the code uses of Python: `json.dumps` and `json.loads` on dicts of dicts with string keys,
-- `str` and `int` on partition numbers, and the order of strings.
pub record Python : Type 1 where
  pub Text : Type 0
  pub dumps : Dict String (Dict String ℤ) → Text
  pub loads : Text → Dict String (Dict String ℤ)
  pub str : ℕ → String
  pub int : String → ℕ
  pub before : String → String → Bool
  -- json: what was dumped loads again, in its order
  pub loads-dumps : (d : Dict String (Dict String ℤ)) → loads (dumps d) ≡ d
  -- a printed number reads back
  pub int-str : (p : ℕ) → int (str p) ≡ p

-- `{f(k): g(v) for k, v in d.items()}`
unfoldable pub rekey {ℓ κ μ ν} :
    {K : Type ℓ} {V : Type κ} {J : Type μ} {W : Type ν} ⦃e : Eq J⦄
    → (K → J)
    → (V → W)
    → Dict J W
    → Dict K V
    → Dict J W
rekey f g out [] = out
rekey f g out ((k, v) ∷ d) = rekey f g (insert (f k) (g v) out) d

module _ {ℓ κ μ ν} {K : Type ℓ} {V : Type κ} {J : Type μ} {W : Type ν} ⦃e : Eq K⦄ ⦃i : Eq J⦄
    (f : K → J) (g : V → W) (back : J → K) where
  -- a renaming of the keys that can be undone on the keys that are there and the one looked up
  lookup-rekey :
      (k : K) (out : Dict J W) (d : Dict K V)
      → back (f k) ≡ k
      → All (λ (x : K × V). back (f x.0) ≡ x.0) d
      → IsDict d
      → lookup (f k) (rekey f g out d)
        ≡ elim (lookup k d) [ none ↦ lookup (f k) out | some v ↦ some (g v) ]
  unfolding lookup rekey
  lookup-rekey k out [] u a h = refl
  lookup-rekey k out ((j, v) ∷ d) u a h = ground (
    arith,
    lookup-rekey k (insert (f j) (g v) out) d u a.1 h.1,
    lookup-insert (f j) (f k) (g v) out,
    e.beq_iff j k,
    i.beq_iff (f j) (f k),
    a.0,
    u,
    λ (same : f j ≡ f k). ap back same,
  )

  lookup-rekey_new :
      (k : K) (d : Dict K V)
      → back (f k) ≡ k
      → All (λ (x : K × V). back (f x.0) ≡ x.0) d
      → IsDict d
      → lookup (f k) (rekey f g [] d) ≡ Option.map g (lookup k d)
  unfolding lookup
  lookup-rekey_new k d u a h = ground (arith, lookup-rekey k [] d u a h)

  rekey-IsDict : (out : Dict J W) (d : Dict K V) → IsDict out → IsDict (rekey f g out d)
  unfolding rekey
  rekey-IsDict out [] h = h
  rekey-IsDict out ((k, v) ∷ d) h =
      rekey-IsDict (insert (f k) (g v) out) d (insert-IsDict (f k) (g v) out h)

  module _ {ξ} (P : J → Type ξ) where
    insert-keys :
        (j : J) (w : W) (m : Dict J W)
        → P j
        → All (λ (x : J × W). P x.0) m
        → All (λ (x : J × W). P x.0) (insert j w m)
    unfolding insert
    insert-keys j w [] h k = (h, tt)
    insert-keys j w (x ∷ m) h k = ground (arith, insert-keys j w m h k.1)

    rekey-keys :
        (out : Dict J W) (d : Dict K V)
        → ((k : K) → P (f k))
        → All (λ (x : J × W). P x.0) out
        → All (λ (x : J × W). P x.0) (rekey f g out d)
    unfolding rekey
    rekey-keys out [] each h = h
    rekey-keys out ((k, v) ∷ d) each h =
        rekey-keys (insert (f k) (g v) out) d each (insert-keys (f k) (g v) out (each k) h)

module _ (py : Python) where
  unfoldable pub topic_before : String × Partitions → String × Partitions → Bool
  topic_before a b = py.before a.0 b.0

  unfoldable pub encode_parts : Partitions → Dict String ℤ
  encode_parts parts = rekey py.str (λ o. o) [] (sort item_before parts)

  unfoldable pub encode : Offsets → py.Text
  encode offsets = py.dumps (rekey (λ t. t) encode_parts [] (sort topic_before offsets))

  unfoldable pub decode_parts : Dict String ℤ → Partitions
  decode_parts parts = rekey py.int (λ o. o) [] parts

  unfoldable pub decode : py.Text → Offsets
  decode raw = rekey (λ t. t) decode_parts [] (py.loads raw)

  any_key {κ} : {V : Type κ} (d : Dict String V) → All (λ (x : String × V). x.0 ≡ x.0) d
  any_key [] = tt
  any_key (x ∷ d) = (refl, any_key d)

  number_keys : (d : Partitions) → All (λ (x : ℕ × ℤ). py.int (py.str x.0) ≡ x.0) d
  number_keys [] = tt
  number_keys (x ∷ d) = (py.int-str x.0, number_keys d)

  map_same : (o : Option ℤ) → Option.map (λ (v : ℤ). v) o ≡ o
  map_same none = refl
  map_same (some v) = refl

  decode_parts-encode_parts :
      (ps : Partitions) (p : ℕ)
      → IsDict ps
      → lookup p (decode_parts (encode_parts ps)) ≡ lookup p ps
  unfolding decode_parts encode_parts
  decode_parts-encode_parts ps p h =
      let sorted = sort item_before ps in
      let text = encode_parts ps in
      ap (λ (q : ℕ). lookup q (decode_parts text)) (sym (py.int-str p))
      ∙ lookup-rekey_new py.int (λ (o : ℤ). o) py.str (py.str p) text (ap py.str (py.int-str p))
          (rekey-keys py.str (λ (o : ℤ). o) py.int (λ k. py.str (py.int k) ≡ k) [] sorted
            (λ k. ap py.str (py.int-str k)) tt)
          (rekey-IsDict py.str (λ (o : ℤ). o) py.int [] sorted tt)
      ∙ map_same (lookup (py.str p) text)
      ∙ lookup-rekey_new py.str (λ (o : ℤ). o) py.int p sorted (py.int-str p) (number_keys sorted)
          (sort-IsDict item_before ps h)
      ∙ map_same (lookup p sorted)
      ∙ lookup-sort item_before p ps h

  -- What a run wrote into the snapshot summary reads back as the same offset map: every partition
  -- of every topic has its offset, and no other has one.
  pub decode-encode :
      (offsets : Offsets) (topic : String) (p : ℕ)
      → IsOffsets offsets
      → offset_at (decode (encode offsets)) topic p ≡ offset_at offsets topic p
  unfolding decode encode lookup
  decode-encode offsets topic p h =
      let sorted = sort topic_before offsets in
      let dumped = rekey (λ (t : String). t) encode_parts [] sorted in
      ap
        (λ (d : Dict String (Dict String ℤ)).
          offset_at (rekey (λ (t : String). t) decode_parts [] d) topic p)
        (py.loads-dumps dumped)
      ∙ ground (
        arith,
        lookup-rekey_new (λ (t : String). t) decode_parts (λ (t : String). t) topic dumped refl
            (any_key dumped)
            (rekey-IsDict (λ (t : String). t) encode_parts (λ (t : String). t) [] sorted tt),
        lookup-rekey_new (λ (t : String). t) encode_parts (λ (t : String). t) topic sorted refl
            (any_key sorted) (sort-IsDict topic_before offsets h.0),
        lookup-sort topic_before topic offsets h.0,
        decode_parts-encode_parts (parts_at offsets topic) p (parts_at-IsDict offsets topic h),
      )
