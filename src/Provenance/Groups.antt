-- ===== src/Provenance/Groups.antt =====
-- Which entries the grouping of rule 3 gathers, and what the small checks show that raise nothing.
use model_shard.Prelude.{
  ℕ, zero, suc, ◌+◌, ◌≤◌, ◌<◌, ◌≡◌, refl, ◌∙◌, Bool, true, false, Option, none, some, List, [], ◌∷◌,
  ◌++◌, any, all, All, elem, append_nil, append_one, sym, elem-append, filter, not, ◌&&◌, ◌||◌,
  ◌==◌, ==_iff, Dict, insert, contains, lookup-insert, contains-insert, ltb, if◌then◌else◌,
  string_eq, nat_eq, arith, inl, inr, Bool-cases,
}
use model_shard.Provenance.Request.{
  OpType, op_layer_atomic, op_aggregate, op_finalize, op_type_eq, OpDescriptor, ProvenanceEntry,
}
use model_shard.Provenance.Chain.{
  ProvenanceError, Check, demand, ◌and_then◌, for_all, is_op, finalize_last, layers_of,
  layers_covered, covers_below, highest_of, Bucket, is_split, entries_of, bucket_at, file_under,
  split_ops_by_layer,
}

pub demand-none : (b : Bool) (e : ProvenanceError) → demand b e ≡ none → b ≡ true
demand-none true e h = refl
demand-none false e h = cc

pub and_then-none : (a b : Check) → (a and_then b) ≡ none → (a ≡ none) × (b ≡ none)
and_then-none none b h = (refl, h)
and_then-none (some e) b h = cc

pub for_all-none {ℓ} :
    {A : Type ℓ} (check : A → Check) (xs : List A)
    → for_all check xs ≡ none
    → All (λ x. check x ≡ none) xs
unfolding for_all
for_all-none check [] h = tt
for_all-none check (x ∷ xs) h =
    let (one, rest) = and_then-none (check x) _ h in (one, for_all-none check xs rest)

-- chain[:-1]
abbrev pub all_but_last {ℓ} : {A : Type ℓ} → List A → List A
all_but_last [] = []
all_but_last (x ∷ []) = []
all_but_last (x ∷ (y ∷ rest)) = x ∷ all_but_last (y ∷ rest)

pub finalize_last-none :
    (chain : List ProvenanceEntry)
    → finalize_last chain ≡ none
    → all (λ e. not (is_op op_finalize e)) (all_but_last chain) ≡ true
unfolding finalize_last
finalize_last-none [] h = refl
finalize_last-none (e ∷ []) h = refl
finalize_last-none (e ∷ (f ∷ rest)) h =
    let (one, more) = and_then-none (demand (not (is_op op_finalize e)) _) _ h in
    ground (arith, demand-none _ _ one, finalize_last-none (f ∷ rest) more)

-- The entry runs the layer, whole or as an aggregate.
abbrev runs_op : ℕ → Option OpDescriptor → Bool
runs_op layer none = false
runs_op layer (some op) =
    (op.op_type == op_layer_atomic || op.op_type == op_aggregate) && op.layer_idx == layer

abbrev pub runs_layer : ℕ → ProvenanceEntry → Bool
runs_layer layer e = runs_op layer e.op

elem-layers_of :
    (layer : ℕ) (op : Option OpDescriptor) → elem layer (layers_of op) ≡ runs_op layer op
elem-layers_of layer none = refl
elem-layers_of layer (some op) = ground arith

pub elem-layers_covered :
    (layer : ℕ) (chain : List ProvenanceEntry)
    → elem layer (layers_covered chain) ≡ any (runs_layer layer) chain
elem-layers_covered layer [] = refl
elem-layers_covered layer (e ∷ es) = rw (
  elem-append layer (layers_of e.op) (layers_covered es),
  elem-layers_of layer e.op,
  elem-layers_covered layer es,
)

pub covers_below-none :
    (n layer : ℕ) (covered : List ℕ) (l : ℕ)
    → covers_below n layer covered ≡ none
    → layer ≤ l
    → l < layer + n
    → elem l covered ≡ true
unfolding covers_below
covers_below-none zero layer covered l h lo hi = absurd (omega (arith, lo, hi))
covers_below-none (suc n) layer covered l h lo hi =
    let (one, rest) = and_then-none (demand (elem layer covered) _) _ h in
    elim (Bool-cases (l == layer)) [
      | inl same ↦ let e : l ≡ layer = (==_iff l layer).0 same in rw e (demand-none _ _ one)
      | inr other ↦ covers_below-none n (layer + 1) covered l rest (ground arith) (omega arith)
    ]

highest_of-ge : (best : ℕ) (xs : List ℕ) → best ≤ highest_of best xs
highest_of-ge best [] = omega arith
highest_of-ge best (x ∷ xs) = ground (arith, highest_of-ge (if ltb best x then x else best) xs)

pub highest_of-elem :
    (m best : ℕ) (xs : List ℕ) → elem m (best ∷ xs) ≡ true → m ≤ highest_of best xs
highest_of-elem m best [] h = ground arith
highest_of-elem m best (x ∷ xs) h =
    elim (Bool-cases (elem m ((if ltb best x then x else best) ∷ xs))) [
      | inl there ↦ highest_of-elem m (if ltb best x then x else best) xs there
      | inr not_there ↦ ground (arith, highest_of-ge (if ltb best x then x else best) xs)
    ]

-- An operation of this kind on this layer.
abbrev op_at : OpType → ℕ → Option OpDescriptor → Bool
op_at kind layer none = false
op_at kind layer (some op) = op.op_type == kind && op.layer_idx == layer

abbrev pub is_at : OpType → ℕ → ProvenanceEntry → Bool
is_at kind layer e = op_at kind layer e.op

abbrev splits_op : ℕ → Option OpDescriptor → Bool
splits_op layer none = false
splits_op layer (some op) = is_split op.op_type && op.layer_idx == layer

-- The entry is part of the split of this layer.
abbrev pub splits : ℕ → ProvenanceEntry → Bool
splits layer e = splits_op layer e.op

entries_of-insert :
    (kind other : OpType) (es : List ProvenanceEntry) (bucket : Bucket)
    → entries_of kind (insert other es bucket)
      ≡ (if other == kind then es else entries_of kind bucket)
entries_of-insert kind other es bucket = ground (arith, lookup-insert other kind es bucket)

bucket_at-insert :
    (layer other : ℕ) (bucket : Bucket) (d : Dict ℕ Bucket)
    → bucket_at layer (insert other bucket d)
      ≡ (if other == layer then bucket else bucket_at layer d)
bucket_at-insert layer other bucket d = ground (arith, lookup-insert other layer bucket d)

entries_of-file_under :
    (kind : OpType) (layer : ℕ) (op : Option OpDescriptor) (e : ProvenanceEntry) (d : Dict ℕ Bucket)
    → is_split kind ≡ true
    → entries_of kind (bucket_at layer (file_under op e d)) ≡ (
        let es = entries_of kind (bucket_at layer d) in
        if op_at kind layer op then es ++ e ∷ [] else es)
entries_of-file_under kind layer none e d h = refl
entries_of-file_under kind layer (some op) e d h = elim (Bool-cases (is_split op.op_type)) [
  | inl kept ↦
      rw (kept, bucket_at-insert layer op.layer_idx)
        (ground (
          arith,
          ==_iff op.op_type kind,
          ==_iff op.layer_idx layer,
          entries_of-insert kind op.op_type
              (entries_of op.op_type (bucket_at op.layer_idx d) ++ e ∷ [])
              (bucket_at op.layer_idx d),
        ))
  | inr dropped ↦ rw dropped (ground (arith, ==_iff op.op_type kind))
]

-- For a kind of rule 3, the grouping gathers exactly the entries of this kind on the layer, in order.
pub entries_of-split_ops_by_layer :
    (kind : OpType) (layer : ℕ) (chain : List ProvenanceEntry) (d : Dict ℕ Bucket)
    → is_split kind ≡ true
    → entries_of kind (bucket_at layer (split_ops_by_layer chain d))
      ≡ entries_of kind (bucket_at layer d) ++ filter (is_at kind layer) chain
unfolding split_ops_by_layer
entries_of-split_ops_by_layer kind layer [] d h = sym (append_nil _)
entries_of-split_ops_by_layer kind layer (e ∷ es) d h =
    entries_of-split_ops_by_layer kind layer es (file_under e.op e d) h
    ∙ (rw (entries_of-file_under kind layer e.op e d h) (elim (Bool-cases (is_at kind layer e)) [
      | inl there ↦ rw there (append_one (entries_of kind (bucket_at layer d)) e _)
      | inr not_there ↦ rw not_there refl
    ]))

contains-file_under :
    (layer : ℕ) (op : Option OpDescriptor) (e : ProvenanceEntry) (d : Dict ℕ Bucket)
    → contains layer (file_under op e d) ≡ (contains layer d || splits_op layer op)
contains-file_under layer none e d = ground arith
contains-file_under layer (some op) e d = ground (
  arith,
  contains-insert op.layer_idx layer
      (insert op.op_type (entries_of op.op_type (bucket_at op.layer_idx d) ++ e ∷ [])
        (bucket_at op.layer_idx d))
      d,
)

pub contains-split_ops_by_layer :
    (layer : ℕ) (chain : List ProvenanceEntry) (d : Dict ℕ Bucket)
    → contains layer (split_ops_by_layer chain d) ≡ (contains layer d || any (splits layer) chain)
unfolding split_ops_by_layer
contains-split_ops_by_layer layer [] d = ground arith
contains-split_ops_by_layer layer (e ∷ es) d = ground (
  arith,
  contains-split_ops_by_layer layer es (file_under e.op e d),
  contains-file_under layer e.op e d,
)
