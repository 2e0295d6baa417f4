-- ===== src/Base/Dict.antt =====
-- Python's `dict`: an association list in insertion order. Writing to a key that is there keeps its
-- place, and a new key goes to the end.
use mathlib.Core.Path.{◌≡◌, refl}
use mathlib.Core.Option.{Option, none, some}
use mathlib.Core.List.{List, [], ◌∷◌}
use native.Mathlib.Omega.{arith}
use k2_market_data_platform.Base.Tests.{if◌then◌else◌}
use k2_market_data_platform.Base.Eq.{Eq, ◌=?◌}

abbrev pub Dict {ℓ κ} : Type ℓ → Type κ → Type (ℓ ⊔ κ)
Dict K V = List (K × V)

module _ {ℓ κ} {K : Type ℓ} {V : Type κ} ⦃e : Eq K⦄ where
  -- d.get(k)
  unfoldable pub lookup : K → Dict K V → Option V
  lookup k [] = none
  lookup k ((j, v) ∷ m) = if j =? k then some v else lookup k m

  -- d[k] = v
  unfoldable pub insert : K → V → Dict K V → Dict K V
  insert k v [] = (k, v) ∷ []
  insert k v ((j, w) ∷ m) = if j =? k then (j, v) ∷ m else (j, w) ∷ insert k v m

  -- d.pop(k, None), del d[k]
  unfoldable pub erase : K → Dict K V → Dict K V
  erase k [] = []
  erase k ((j, w) ∷ m) = let rest = erase k m in if j =? k then rest else (j, w) ∷ rest

  pub lookup-insert :
      (k j : K) (v : V) (m : Dict K V)
      → lookup j (insert k v m) ≡ (if k =? j then some v else lookup j m)
  unfolding lookup insert
  lookup-insert k j v [] = refl
  lookup-insert k j v ((i, w) ∷ m) =
      ground (arith, e.beq_iff k j, e.beq_iff i k, e.beq_iff i j, lookup-insert k j v m)

  pub lookup-erase :
      (k j : K) (m : Dict K V) → lookup j (erase k m) ≡ (if k =? j then none else lookup j m)
  unfolding lookup erase
  lookup-erase k j [] = ground arith
  lookup-erase k j ((i, w) ∷ m) =
      ground (arith, e.beq_iff k j, e.beq_iff i k, e.beq_iff i j, lookup-erase k j m)

  -- A dict in Python holds no key twice.
  abbrev pub IsDict : Dict K V → Type κ
  IsDict [] = Unit
  IsDict ((k, v) ∷ m) = (lookup k m ≡ none) × IsDict m

  pub insert-IsDict : (k : K) (v : V) (m : Dict K V) → IsDict m → IsDict (insert k v m)
  unfolding lookup insert
  insert-IsDict k v [] h = (refl, tt)
  insert-IsDict k v ((j, w) ∷ m) h =
      ground (arith, insert-IsDict k v m h.1, lookup-insert k j v m, e.beq_iff j k, e.beq_iff k j)

-- `for k, v in d.items(): out[k] = f(k, v)`
module _ {ℓ κ μ} {K : Type ℓ} {V : Type κ} {W : Type μ} ⦃e : Eq K⦄ (f : K → V → W) where
  unfoldable pub collect : Dict K W → Dict K V → Dict K W
  collect out [] = out
  collect out ((k, v) ∷ d) = collect (insert k (f k v) out) d

  pub lookup-collect :
      (j : K) (out : Dict K W) (d : Dict K V)
      → IsDict d
      → lookup j (collect out d) ≡ elim (lookup j d) [ none ↦ lookup j out | some v ↦ some (f j v) ]
  unfolding lookup collect
  lookup-collect j out [] h = refl
  lookup-collect j out ((k, v) ∷ d) h = ground (
    arith,
    lookup-collect j (insert k (f k v) out) d h.1,
    lookup-insert k j (f k v) out,
    e.beq_iff k j,
  )

  pub collect-IsDict : (out : Dict K W) (d : Dict K V) → IsDict out → IsDict (collect out d)
  unfolding collect
  collect-IsDict out [] h = h
  collect-IsDict out ((k, v) ∷ d) h =
      collect-IsDict (insert k (f k v) out) d (insert-IsDict k (f k v) out h)

module _ {ℓ κ} {K : Type ℓ} {V : Type κ} ⦃e : Eq K⦄ where
  -- d.update(other)
  unfoldable pub update : Dict K V → Dict K V → Dict K V
  update = collect (λ k v. v)

  pub lookup-update :
      (j : K) (d other : Dict K V)
      → IsDict other
      → lookup j (update d other) ≡ elim (lookup j other) [ none ↦ lookup j d | some v ↦ some v ]
  unfolding update
  lookup-update j d other h = lookup-collect (λ k v. v) j d other h

  pub update-IsDict : (d other : Dict K V) → IsDict d → IsDict (update d other)
  unfolding update
  update-IsDict d other h = collect-IsDict (λ k v. v) d other h
