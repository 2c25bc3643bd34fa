-- ===== src/Prelude/Assoc.antt =====
-- Python's `dict`: the entries in the order in which their keys were first inserted. An assignment
-- to a key that is there keeps its place.
use mathlib.Core.Path.{◌≡◌, refl}
use mathlib.Core.Logic.{inl, inr}
use mathlib.Core.Bool.{Bool, true, false, ◌||◌}
use mathlib.Core.List.{List, [], ◌∷◌, map}
use mathlib.Core.Option.{Option, none, some}
use native.Mathlib.Omega.{arith}
use model_shard.Prelude.Tests.{if◌then◌else◌, is_some, Bool-cases}
use model_shard.Prelude.Keys.{Comparable, ◌==◌, ==_refl}
use model_shard.Prelude.Lists.{All, All-weaken}

abbrev pub Dict {ℓ κ} : Type ℓ → Type κ → Type (ℓ ⊔ κ)
Dict K V = List (K × V)

module _ {ℓ κ} {K : Type ℓ} {V : Type κ} where
  -- list(d.keys()), list(d.values())
  abbrev pub keys : Dict K V → List K
  keys = map (λ e. e.0)

  abbrev pub values : Dict K V → List V
  values = map (λ e. e.1)

module _ {ℓ κ} {K : Type ℓ} {V : Type κ} ⦃e : Comparable K⦄ where
  -- d.get(k)
  unfoldable pub lookup : K → Dict K V → Option V
  lookup k [] = none
  lookup k (entry ∷ d) = if entry.0 == k then some entry.1 else lookup k d

  -- d[k] = v
  unfoldable pub insert : K → V → Dict K V → Dict K V
  insert k v [] = (k, v) ∷ []
  insert k v ((j, w) ∷ d) = if j == k then (j, v) ∷ d else (j, w) ∷ insert k v d

  -- d.pop(k, None)
  unfoldable pub erase : K → Dict K V → Dict K V
  erase k [] = []
  erase k ((j, v) ∷ d) = let rest = erase k d in if j == k then rest else (j, v) ∷ rest

  -- k in d
  unfoldable pub contains : K → Dict K V → Bool
  unfolding lookup
  contains k d = is_some (lookup k d)

  pub lookup-insert :
      (k j : K) (v : V) (d : Dict K V)
      → lookup j (insert k v d) ≡ (if k == j then some v else lookup j d)
  unfolding lookup insert
  lookup-insert k j v [] = refl
  lookup-insert k j v ((i, w) ∷ d) =
      ground (arith, e.equals_iff k j, e.equals_iff i k, e.equals_iff i j, lookup-insert k j v d)

  pub lookup-insert_self : (k : K) (v : V) (d : Dict K V) → lookup k (insert k v d) ≡ some v
  lookup-insert_self k v d = rw (lookup-insert, ==_refl k)

  pub contains-insert :
      (k j : K) (v : V) (d : Dict K V) → contains j (insert k v d) ≡ (k == j || contains j d)
  unfolding contains
  contains-insert k j v d = ground (arith, lookup-insert k j v d)

  pub lookup-erase :
      (k j : K) (d : Dict K V) → lookup j (erase k d) ≡ (if k == j then none else lookup j d)
  unfolding lookup erase
  lookup-erase k j [] = ground arith
  lookup-erase k j ((i, w) ∷ d) =
      ground (arith, e.equals_iff k j, e.equals_iff i k, e.equals_iff i j, lookup-erase k j d)

  pub lookup-of_contains :
      (k : K) (d : Dict K V) → contains k d ≡ true → (v : V) × (lookup k d ≡ some v)
  unfolding contains
  lookup-of_contains k d h = ground arith

  -- A dict holds each key once.
  abbrev pub HasDistinctKeys : Dict K V → Type 0
  HasDistinctKeys [] = Unit
  HasDistinctKeys ((k, v) ∷ d) = (contains k d ≡ false) × HasDistinctKeys d

  pub HasDistinctKeys-insert :
      (k : K) (v : V) (d : Dict K V) → HasDistinctKeys d → HasDistinctKeys (insert k v d)
  unfolding insert
  HasDistinctKeys-insert k v [] h = (unfold contains lookup in refl, tt)
  HasDistinctKeys-insert k v ((j, w) ∷ d) (fresh, h) = elim (Bool-cases (j == k)) [
    | inl same ↦ rw same (fresh, h)
    | inr other ↦ rw other (
      ground (arith, contains-insert k j v d, e.equals_iff k j, e.equals_iff j k),
      HasDistinctKeys-insert k v d h,
    )
  ]

  pub All-insert {μ} :
      (P : K × V → Type μ) (k : K) (v : V) (d : Dict K V)
      → P (k, v)
      → All P d
      → All P (insert k v d)
  unfolding insert
  All-insert P k v [] new h = (new, tt)
  All-insert P k v ((j, w) ∷ d) new (old, h) = elim (Bool-cases (j == k)) [
    | inl same ↦ rw same (rw ((e.equals_iff j k).0 same) new, h)
    | inr other ↦ rw other (old, All-insert P k v d new h)
  ]

  pub All-lookup {μ} :
      (P : K × V → Type μ) (k : K) (v : V) (d : Dict K V) → All P d → lookup k d ≡ some v → P (k, v)
  unfolding lookup
  All-lookup P k v [] h found = cc
  All-lookup P k v ((j, w) ∷ d) (old, h) found = elim (Bool-cases (j == k)) [
    | inl same ↦
        let key : j ≡ k = (e.equals_iff j k).0 same in
        let value : w ≡ v = ground arith in rw (← key, ← value) old
    | inr other ↦ All-lookup P k v d h (ground arith)
  ]

  lookup-cons_ne :
      (k j : K) (v w : V) (d : Dict K V)
      → contains j d ≡ false
      → lookup k d ≡ some v
      → lookup k ((j, w) ∷ d) ≡ some v
  unfolding lookup contains
  lookup-cons_ne k j v w d fresh found = ground (arith, e.equals_iff j k)

  -- With distinct keys each entry is the one that its key finds.
  pub lookup-of_entries : (d : Dict K V) → HasDistinctKeys d → All (λ x. lookup x.0 d ≡ some x.1) d
  unfolding lookup
  lookup-of_entries [] h = tt
  lookup-of_entries ((j, w) ∷ d) (fresh, h) = (
    rw (==_refl j),
    All-weaken _ _ d (λ x found. lookup-cons_ne x.0 j x.1 w d fresh found) (lookup-of_entries d h),
  )
