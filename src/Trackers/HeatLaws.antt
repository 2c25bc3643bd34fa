-- ===== src/Trackers/HeatLaws.antt =====
-- What a batch of picks does to the heat of each expert.
use model_shard.Prelude.{
  ℕ, ◌+◌, ◌≡◌, refl, ap, sym, ◌∙◌, Bool, true, false, Option, none, some, List, [], ◌∷◌, ◌&&◌, not,
  ◌==◌, ==_iff, if◌then◌else◌, Dict, lookup, insert, contains, elem, nat_eq, pair_eq, lookup-insert,
  lookup-of_contains, arith, HasDistinctKeys, HasDistinctKeys-insert, contains-insert, ◌||◌,
  nat_equals_iff, inl, inr, Bool-cases,
}
use model_shard.Trackers.Average.{Average}
use model_shard.Trackers.Heat.{
  count_of, count_ids, HeatTracker, or_zero, decay_others, fold_counts, observe,
}

-- How often `e` occurs.
abbrev pub occurrences : ℕ → List ℕ → ℕ
occurrences e [] = 0
occurrences e (x ∷ xs) = let rest = occurrences e xs in if x == e then rest + 1 else rest

count_ids-occurrences :
    (e : ℕ) (es : List ℕ) (d : Dict ℕ ℕ)
    → count_of (lookup e (count_ids es d)) ≡ count_of (lookup e d) + occurrences e es
unfolding count_ids
count_ids-occurrences e [] d = omega arith
count_ids-occurrences e (x ∷ xs) d =
    let one = lookup-insert x e (count_of (lookup x d) + 1) d in
    count_ids-occurrences e xs (insert x (count_of (lookup x d) + 1) d)
    ∙ elim (Bool-cases (x == e)) [
      | inl same ↦
          let key : x ≡ e = (nat_equals_iff x e).0 same in rw (one, same, key) (omega arith)
      | inr other ↦ rw (one, other) refl
    ]

count_ids-contains :
    (e : ℕ) (es : List ℕ) (d : Dict ℕ ℕ) → contains e (count_ids es d) ≡ (contains e d || elem e es)
unfolding count_ids
count_ids-contains e [] d = ground arith
count_ids-contains e (x ∷ xs) d = ground (
  arith,
  count_ids-contains e xs (insert x (count_of (lookup x d) + 1) d),
  contains-insert x e (count_of (lookup x d) + 1) d,
)

count_ids-HasDistinctKeys :
    (es : List ℕ) (d : Dict ℕ ℕ) → HasDistinctKeys d → HasDistinctKeys (count_ids es d)
unfolding count_ids
count_ids-HasDistinctKeys [] d h = h
count_ids-HasDistinctKeys (x ∷ xs) d h =
    count_ids-HasDistinctKeys xs _ (HasDistinctKeys-insert x _ d h)

lookup-fresh : (e : ℕ) (d : Dict ℕ ℕ) → contains e d ≡ false → lookup e d ≡ none
unfolding contains
lookup-fresh e d h = ground arith

slot-equals : (k x l e : ℕ) → pair_eq.equals (k, x) (l, e) ≡ (l == k && x == e)
slot-equals k x l e = ground (arith, nat_equals_iff k l, nat_equals_iff l k)

lookup-insert_slot {ℓ} :
    {V : Type ℓ} (k x l e : ℕ) (v : V) (d : Dict (ℕ × ℕ) V)
    → lookup (l, e) (insert (k, x) v d) ≡ (if l == k && x == e then some v else lookup (l, e) d)
lookup-insert_slot k x l e v d =
    lookup-insert (k, x) (l, e) v d
    ∙ ap (λ b. if b then some v else lookup (l, e) d) (slot-equals k x l e)

module _ (a : Average) where
  abbrev decayed : Bool → Option a.Float → Option a.Float
  decayed fades none = none
  decayed fades (some v) = some (if fades then a.decay v else v)

  lookup-decay_others :
      (layer l e : ℕ) (counts : Dict ℕ ℕ) (ema : Dict (ℕ × ℕ) a.Float)
      → lookup (l, e) (decay_others a layer counts ema)
        ≡ decayed (l == layer && not (contains e counts)) (lookup (l, e) ema)
  unfolding decay_others lookup
  lookup-decay_others layer l e counts [] = refl
  lookup-decay_others layer l e counts ((k, v) ∷ ema) = elim (Bool-cases (k == (l, e))) [
    | inl same ↦ let key : k ≡ (l, e) = (==_iff k (l, e)).0 same in rw (same, key) refl
    | inr other ↦ rw (other) (lookup-decay_others layer l e counts ema)
  ]

  abbrev folded : Option ℕ → Option a.Float → Option a.Float
  folded none before = before
  folded (some c) before = some (a.blend c (or_zero a before))

  lookup-fold_counts :
      (layer l e : ℕ) (counts : Dict ℕ ℕ) (ema : Dict (ℕ × ℕ) a.Float)
      → HasDistinctKeys counts
      → lookup (l, e) (fold_counts a layer counts ema)
        ≡ (if l == layer then folded (lookup e counts) (lookup (l, e) ema) else lookup (l, e) ema)
  unfolding fold_counts lookup
  lookup-fold_counts layer l e [] ema h = ground arith
  lookup-fold_counts layer l e ((x, c) ∷ counts) ema (fresh, h) =
      let v = a.blend c (or_zero a (lookup (layer, x) ema)) in
      lookup-fold_counts layer l e counts (insert (layer, x) v ema) h
      ∙ rw (lookup-insert_slot layer x l e v ema) (elim (Bool-cases (l == layer)) [
        | inr other ↦ rw other refl
        | inl same ↦ elim (Bool-cases (x == e)) [
          | inl picked ↦
              let ids : x ≡ e = (nat_equals_iff x e).0 picked in
              let layers : l ≡ layer = (nat_equals_iff l layer).0 same in
              rw (same, picked, ← ids, lookup-fresh x counts fresh, layers) refl
          | inr not_picked ↦ rw (same, not_picked) refl
        ]
      ])

  -- The average of an expert after a batch of picks of a layer.
  abbrev pub averaged : ℕ → ℕ → ℕ → List ℕ → Option a.Float → Option a.Float
  averaged layer l e picks before =
      if l == layer
      then (if elem e picks
          then some (a.blend (occurrences e picks) (or_zero a before))
          else decayed true before)
      else before

  same_decayed : (o : Option a.Float) → decayed false o ≡ o
  same_decayed none = refl
  same_decayed (some v) = refl

  counted :
      (e : ℕ) (picks : List ℕ)
      → elem e picks ≡ true
      → lookup e (count_ids picks []) ≡ some (occurrences e picks)
  unfolding contains lookup
  counted e picks h =
      let (c, found) =
        lookup-of_contains e (count_ids picks []) (count_ids-contains e picks [] ∙ h) in
      let same = count_ids-occurrences e picks [] in
      found ∙ ap some (ap count_of (sym found) ∙ same ∙ omega arith)

  combined :
      (layer l e : ℕ) (picks : List ℕ) (counts : Dict ℕ ℕ) (before : Option a.Float)
      → contains e counts ≡ elem e picks
      → (elem e picks ≡ true → lookup e counts ≡ some (occurrences e picks))
      → (if l == layer
          then folded (lookup e counts) (decayed (l == layer && not (contains e counts)) before)
          else decayed (l == layer && not (contains e counts)) before)
        ≡ averaged layer l e picks before
  combined layer l e picks counts before there found = elim (Bool-cases (l == layer)) [
    | inr other ↦ rw other (same_decayed before)
    | inl same ↦ elim (Bool-cases (elem e picks)) [
      | inl picked ↦ rw (same, there, picked, found picked, same_decayed before) refl
      | inr not_picked ↦
          rw (same, there, not_picked, lookup-fresh e counts (there ∙ not_picked)) refl
    ]
  ]

  -- A batch of picks, not empty, changes the heat of its layer and no other: an expert that was picked
  -- has the number of its picks blended into its average, as the first picks of an expert that is not
  -- tracked are into zero, and any other tracked expert of the layer decays.
  pub observe-averages :
      (layer l e pick : ℕ) (picks : List ℕ) (t : HeatTracker a)
      → lookup (l, e) (observe a layer (pick ∷ picks) t).ema
        ≡ averaged layer l e (pick ∷ picks) (lookup (l, e) t.ema)
  unfolding observe
  observe-averages layer l e pick picks t =
      let all_picks = pick ∷ picks in
      let counts = count_ids all_picks [] in
      lookup-fold_counts layer l e counts (decay_others a layer counts t.ema)
        (count_ids-HasDistinctKeys all_picks [] tt)
      ∙ ap (λ o. if l == layer then folded (lookup e counts) o else o)
          (lookup-decay_others layer l e counts t.ema)
      ∙ combined layer l e all_picks counts (lookup (l, e) t.ema)
          (count_ids-contains e all_picks [] ∙ unfold contains lookup in refl) (counted e all_picks)
