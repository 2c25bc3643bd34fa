-- ===== src/Prelude/Keys.antt =====
-- Types with a Boolean equality: the keys of Python's dicts and the elements of its sets.
use Prim.Native.Nat.{ℕ}
use Prim.Native.String.{String}
use mathlib.Core.Path.{◌≡◌, refl}
use mathlib.Core.Logic.{◌↔◌}
use mathlib.Core.Bool.{Bool, true, false, ◌&&◌}
use mathlib.Core.List.{List, [], ◌∷◌}
use native.Mathlib.Omega.{arith}
use text.Mathlib.Text.{◌==◌ as str_eq}
use text.Mathlib.TextEquality.{eq_iff}
use model_shard.Prelude.Tests.{nat_equals, nat_equals_iff}

-- `equals` is the `==` of the Python type.
pub record Comparable {ℓ} (Key : Type ℓ) : Type ℓ where
  pub equals : Key → Key → Bool
  pub equals_iff : (j k : Key) → (equals j k ≡ true) ↔ (j ≡ k)

instance abbrev pub string_eq : Comparable String
string_eq = record { equals_iff = eq_iff; equals = str_eq }

module _ {ℓ} {Key : Type ℓ} ⦃c : Comparable Key⦄ where
  infix 50 ◌==◌
  abbrev pub ◌==◌ : Key → Key → Bool
  j == k = c.equals j k

  -- The law of an instance, with the instance found.
  pub ==_iff : (j k : Key) → ((j == k) ≡ true) ↔ (j ≡ k)
  ==_iff = c.equals_iff

  pub ==_refl : (k : Key) → (k == k) ≡ true
  ==_refl k = (==_iff k k).1 refl

instance abbrev pub nat_eq : Comparable ℕ
nat_eq = record { equals_iff = nat_equals_iff; equals = nat_equals }

module _ {ℓ κ} {A : Type ℓ} {B : Type κ} ⦃e : Comparable A⦄ ⦃f : Comparable B⦄ where
  abbrev pair_equals : A × B → A × B → Bool
  pair_equals (a, b) (c, d) = e.equals a c && f.equals b d

  pub pair_equals_iff : (p q : A × B) → (pair_equals p q ≡ true) ↔ (p ≡ q)
  pair_equals_iff (a, b) (c, d) = ground (arith, e.equals_iff a c, f.equals_iff b d)

instance abbrev pub pair_eq {ℓ κ} :
    {A : Type ℓ} {B : Type κ} ⦃e : Comparable A⦄ ⦃f : Comparable B⦄ → Comparable (A × B)
pair_eq ⦃e⦄ ⦃f⦄ = record { equals = pair_equals; equals_iff = pair_equals_iff }

module _ {ℓ} {A : Type ℓ} ⦃e : Comparable A⦄ where
  abbrev list_equals : List A → List A → Bool
  list_equals [] [] = true
  list_equals (x ∷ xs) (y ∷ ys) = e.equals x y && list_equals xs ys
  list_equals xs ys = false

  pub list_equals_iff : (xs ys : List A) → (list_equals xs ys ≡ true) ↔ (xs ≡ ys)
  list_equals_iff [] [] = (λ _. refl, λ _. refl)
  list_equals_iff [] (y ∷ ys) = ground arith
  list_equals_iff (x ∷ xs) [] = ground arith
  list_equals_iff (x ∷ xs) (y ∷ ys) = ground (arith, e.equals_iff x y, list_equals_iff xs ys)

instance abbrev pub list_eq {ℓ} : {A : Type ℓ} ⦃e : Comparable A⦄ → Comparable (List A)
list_eq ⦃e⦄ = record { equals = list_equals; equals_iff = list_equals_iff }
