-- ===== src/Migration/Minimum.antt =====
-- `min` with a key finds an element, and none has a lower key.
use model_shard.Prelude.{
  ℕ, ◌≤◌, ◌≡◌, Bool, true, false, List, [], ◌∷◌, elem, Comparable, ◌==◌, ==_refl, ==_iff, ltb,
  if◌then◌else◌, arith, inl, inr, Bool-cases, ap,
}
use model_shard.Migration.Scanner.{min_by}

module _ {A : Type 0} ⦃eq : Comparable A⦄ (key : A → ℕ) where
  -- What is kept of two.
  abbrev lower : A → A → A
  lower best x = if ltb (key x) (key best) then x else best

  elem-lower :
      (m best x : A) (xs : List A) (b : Bool)
      → elem m ((if b then x else best) ∷ xs) ≡ true
      → elem m (best ∷ x ∷ xs) ≡ true
  elem-lower m best x xs true h = ground (arith, h)
  elem-lower m best x xs false h = ground (arith, h)

  pub elem-min_by : (best : A) (xs : List A) → elem (min_by key best xs) (best ∷ xs) ≡ true
  unfolding min_by
  elem-min_by best [] = rw (==_refl best)
  elem-min_by best (x ∷ xs) =
      elem-lower (min_by key (lower best x) xs) best x xs (ltb (key x) (key best))
        (elem-min_by (lower best x) xs)

  lower-le : (best x : A) → (key (lower best x) ≤ key best) × (key (lower best x) ≤ key x)
  lower-le best x = elim (Bool-cases (ltb (key x) (key best))) [
    | inl less ↦ rw less (ground arith, omega arith)
    | inr more ↦ rw more (omega arith, ground arith)
  ]

  min_by-le_first : (best : A) (xs : List A) → key (min_by key best xs) ≤ key best
  unfolding min_by
  min_by-le_first best [] = omega arith
  min_by-le_first best (x ∷ xs) =
      omega (arith, min_by-le_first (lower best x) xs, (lower-le best x).0)

  same_key : (x y : A) → (x == y) ≡ true → key x ≡ key y
  same_key x y h = ap key ((==_iff x y).0 h)

  pub min_by-le :
      (best : A) (xs : List A) (y : A)
      → elem y (best ∷ xs) ≡ true
      → key (min_by key best xs) ≤ key y
  unfolding min_by
  min_by-le best [] y h = let e = same_key best y (ground (arith, h)) in omega (arith, e)
  min_by-le best (x ∷ xs) y h = elim (Bool-cases (elem y xs)) [
    | inl later ↦ min_by-le (lower best x) xs y (ground (arith, later))
    | inr gone ↦
        let first = min_by-le_first (lower best x) xs in
        let le = lower-le best x in
        elim (Bool-cases (best == y)) [
          | inl same ↦ let e = same_key best y same in omega (arith, first, le.0, e)
          | inr other ↦
              let e = same_key x y (ground (arith, h, gone, other)) in omega (arith, first, le.1, e)
        ]
  ]
