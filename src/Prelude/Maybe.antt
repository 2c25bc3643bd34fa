-- ===== src/Prelude/Maybe.antt =====
-- Python's code that may raise, where only the fact matters: `none` is the exception.
use mathlib.Core.Path.{◌≡◌, refl}
use mathlib.Core.Option.{Option, none, some, some-injective}

module _ {ℓ κ} {A : Type ℓ} {B : Type κ} where
  infixl 5 ◌>>=◌
  abbrev pub ◌>>=◌ : Option A → (A → Option B) → Option B
  none >>= after = none
  (some a) >>= after = after a

  -- Both parts of a chain that returned have returned.
  pub some->>= :
      (o : Option A) (after : A → Option B) (b : B)
      → (o >>= after) ≡ some b
      → (a : A) × (o ≡ some a) × (after a ≡ some b)
  some->>= none after b h = cc
  some->>= (some a) after b h = (a, refl, h)

module _ {ℓ} {A : Type ℓ} where
  pub value-same : {a b : A} → some a ≡ some b → a ≡ b
  value-same {a} {b} h = some-injective a b h
