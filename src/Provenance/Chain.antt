-- ===== src/Provenance/Chain.antt =====
-- `validate_chain` of src/model_shard/provenance.py, rule by rule. A check gives the exception that it
-- raises, none when it raises none. The callables are taken to return.
use model_shard.Prelude.{
  ℕ, zero, suc, ◌+◌, String, Bool, true, false, Option, none, some, List, [], ◌∷◌, ◌++◌, length,
  any, elem, not, ◌&&◌, ◌||◌, ◌==◌, Dict, lookup, insert, leb, ltb, nat_equals, if◌then◌else◌,
  string_eq, nat_eq, list_eq,
}
use model_shard.Provenance.Request.{
  Bytes, OpType, op_embed, op_layer_atomic, op_attention_route, op_expert, op_aggregate,
  op_finalize, op_shared_expert, op_type_eq, OpDescriptor, ProvenanceEntry,
}
use model_shard.Provenance.Digest.{compute_hash}

-- One constructor for each `raise`, with the numbers and names of its message.
pub data ProvenanceError : Type 0 where
  empty_chain : ProvenanceError
  no_embed : ProvenanceError
  finalize_not_last : ProvenanceError
  missing_layer : ℕ → ProvenanceError
  not_one : OpType → ℕ → ProvenanceError
  no_expert : ℕ → ProvenanceError
  duplicate_expert : ℕ → ℕ → ProvenanceError
  missing_parent_shared : ℕ → ProvenanceError
  missing_parent_expert : ℕ → ProvenanceError
  not_head : String → ProvenanceError
  not_tail : String → ProvenanceError
  out_of_range : OpType → ℕ → String → ProvenanceError
  split_here : ℕ → String → ProvenanceError
  not_split_here : OpType → ℕ → String → ProvenanceError
  not_an_owner : ℕ → ℕ → String → ProvenanceError
  no_tail_op : ProvenanceError
  hash_mismatch : ProvenanceError
  -- the struct.error of `pack`
  not_packable : ProvenanceError

abbrev pub Check : Type 0
Check = Option ProvenanceError

-- if not ok: raise error
abbrev pub demand : Bool → ProvenanceError → Check
demand true error = none
demand false error = some error

infixr 6 ◌and_then◌
abbrev pub ◌and_then◌ : Check → Check → Check
none and_then after = after
(some error) and_then after = some error

-- for x in xs: check(x)
unfoldable pub for_all {ℓ} : {A : Type ℓ} → (A → Check) → List A → Check
for_all check [] = none
for_all check (x ∷ xs) = check x and_then for_all check xs

-- e.op is not None and e.op.op_type == t
abbrev pub op_is : OpType → Option OpDescriptor → Bool
op_is t none = false
op_is t (some op) = op.op_type == t

abbrev pub is_op : OpType → ProvenanceEntry → Bool
is_op t e = op_is t e.op

-- Rule 1.
unfoldable pub finalize_last : List ProvenanceEntry → Check
finalize_last [] = none
finalize_last (e ∷ []) = none
finalize_last (e ∷ (f ∷ rest)) =
    demand (not (is_op op_finalize e)) finalize_not_last and_then finalize_last (f ∷ rest)

unfoldable pub starts_and_ends : List ProvenanceEntry → Check
unfolding finalize_last
starts_and_ends [] = some empty_chain
starts_and_ends (first ∷ rest) =
    demand (is_op op_embed first) no_embed and_then finalize_last (first ∷ rest)

-- Rule 2: the set `layers_covered`.
abbrev pub layers_of : Option OpDescriptor → List ℕ
layers_of none = []
layers_of (some op) =
    if op.op_type == op_layer_atomic || op.op_type == op_aggregate then op.layer_idx ∷ [] else []

abbrev pub layers_covered : List ProvenanceEntry → List ℕ
layers_covered [] = []
layers_covered (e ∷ es) = layers_of e.op ++ layers_covered es

-- Each layer below `n`, from 0 on.
unfoldable pub covers_below : ℕ → ℕ → List ℕ → Check
covers_below zero layer covered = none
covers_below (suc n) layer covered =
    demand (elem layer covered) (missing_layer layer) and_then covers_below n (layer + 1) covered

-- max(...) of a list that is not empty
abbrev pub highest_of : ℕ → List ℕ → ℕ
highest_of best [] = best
highest_of best (x ∷ xs) = highest_of (if ltb best x then x else best) xs

abbrev pub gapless : List ℕ → Check
gapless [] = none
gapless (x ∷ xs) = covers_below (highest_of x xs + 1) 0 (x ∷ xs)

abbrev pub has_finalize : List ProvenanceEntry → Bool
has_finalize = any (is_op op_finalize)

unfoldable pub complete : ℕ → List ProvenanceEntry → Check
unfolding covers_below
complete total_layers chain =
    if has_finalize chain
    then covers_below total_layers 0 (layers_covered chain)
    else gapless (layers_covered chain)

-- Rule 3: `split_ops_by_layer`, for each layer the entries of each kind.
abbrev pub Bucket : Type 0
Bucket = Dict OpType (List ProvenanceEntry)

abbrev pub is_split : OpType → Bool
is_split t = t == op_attention_route || t == op_shared_expert || t == op_expert || t == op_aggregate

-- bucket.get(kind, [])
abbrev pub entries_or_empty : Option (List ProvenanceEntry) → List ProvenanceEntry
entries_or_empty none = []
entries_or_empty (some es) = es

abbrev pub entries_of : OpType → Bucket → List ProvenanceEntry
entries_of kind bucket = entries_or_empty (lookup kind bucket)

abbrev pub bucket_or_empty : Option Bucket → Bucket
bucket_or_empty none = []
bucket_or_empty (some bucket) = bucket

abbrev pub bucket_at : ℕ → Dict ℕ Bucket → Bucket
bucket_at layer d = bucket_or_empty (lookup layer d)

abbrev pub file_under : Option OpDescriptor → ProvenanceEntry → Dict ℕ Bucket → Dict ℕ Bucket
file_under none e d = d
file_under (some op) e d =
    if is_split op.op_type
    then (let bucket = bucket_at op.layer_idx d in
        insert op.layer_idx (insert op.op_type (entries_of op.op_type bucket ++ e ∷ []) bucket) d)
    else d

unfoldable pub split_ops_by_layer : List ProvenanceEntry → Dict ℕ Bucket → Dict ℕ Bucket
split_ops_by_layer [] d = d
split_ops_by_layer (e ∷ es) d = split_ops_by_layer es (file_under e.op e d)

-- e.op.expert_id, of an entry that has an operation
abbrev pub expert_of : Option OpDescriptor → ℕ
expert_of none = 0
expert_of (some op) = op.expert_id

unfoldable pub distinct_experts : ℕ → List ℕ → List ProvenanceEntry → Check
distinct_experts layer seen [] = none
distinct_experts layer seen (e ∷ es) =
    demand (not (elem (expert_of e.op) seen)) (duplicate_expert layer (expert_of e.op))
    and_then distinct_experts layer (expert_of e.op ∷ seen) es

abbrev pub exactly_one : OpType → ℕ → List ProvenanceEntry → Check
exactly_one kind layer es = demand (nat_equals (length es) 1) (not_one kind layer)

abbrev pub expert_is_parent : ℕ → List Bytes → ProvenanceEntry → Check
expert_is_parent layer parents e = demand (elem e.hash parents) (missing_parent_expert layer)

-- The last two checks, on the first aggregate and the first shared expert.
abbrev pub parents_complete :
    ℕ → List ProvenanceEntry → List ProvenanceEntry → List ProvenanceEntry → Check
parents_complete layer (agg ∷ aggs) (shared ∷ more) experts =
    demand (elem shared.hash agg.parent_hashes) (missing_parent_shared layer)
    and_then for_all (expert_is_parent layer agg.parent_hashes) experts
parents_complete layer aggs shareds experts = none

abbrev pub has_any : List ProvenanceEntry → Bool
has_any [] = false
has_any (e ∷ es) = true

unfoldable pub split_layer : ℕ × Bucket → Check
unfolding for_all distinct_experts
split_layer (layer, bucket) =
    let routes = entries_of op_attention_route bucket in
    let shareds = entries_of op_shared_expert bucket in
    let experts = entries_of op_expert bucket in
    let aggs = entries_of op_aggregate bucket in
    exactly_one op_attention_route layer routes
    and_then exactly_one op_shared_expert layer shareds
    and_then demand (has_any experts) (no_expert layer)
    and_then exactly_one op_aggregate layer aggs
    and_then distinct_experts layer [] experts
    and_then parents_complete layer aggs shareds experts

-- Rule 5: start <= layer < end
abbrev pub in_range : ℕ → ℕ × ℕ → Bool
in_range layer (start, end) = leb start layer && ltb layer end

-- chain[-1]
abbrev pub last_of : ProvenanceEntry → List ProvenanceEntry → ProvenanceEntry
last_of e [] = e
last_of e (f ∷ fs) = last_of f fs

module _ (utf8 : String → Bytes) (blake2b : Bytes → Bytes) where
  -- Rule 4.
  abbrev pub matches : ProvenanceEntry → Option Bytes → Check
  matches tail none = some not_packable
  matches tail (some expected) = demand (expected == tail.hash) hash_mismatch

  abbrev pub tail_digest : ProvenanceEntry → Option OpDescriptor → Bytes → Check
  tail_digest tail none output_bytes = some no_tail_op
  tail_digest tail (some op) output_bytes =
      matches tail (compute_hash utf8 blake2b tail.parent_hashes tail.node_id op output_bytes)

  unfoldable pub tail_matches : List ProvenanceEntry → Option Bytes → Check
  unfolding compute_hash
  tail_matches chain none = none
  tail_matches [] (some output_bytes) = none
  tail_matches (e ∷ es) (some output_bytes) =
      let tail = last_of e es in tail_digest tail tail.op output_bytes

module _ (shard_lookup : String → ℕ × ℕ) (total_layers : ℕ)
    (split_layers_for_shard : String → List ℕ) (live_owners_of : ℕ → ℕ → List String) where
  abbrev pub authorized_op : OpDescriptor → String → Check
  authorized_op op sid =
      let range = shard_lookup sid in
      let layer = op.layer_idx in
      let within = demand (in_range layer range) (out_of_range op.op_type layer sid) in
      let splits = elem layer (split_layers_for_shard sid) in
      elim op.op_type [
        | op_embed ↦ demand (nat_equals range.0 0) (not_head sid)
        | op_finalize ↦ demand (nat_equals range.1 total_layers) (not_tail sid)
        | op_layer_atomic ↦ within and_then demand (not splits) (split_here layer sid)
        | op_attention_route ↦ within and_then demand splits (not_split_here op.op_type layer sid)
        | op_shared_expert ↦ within and_then demand splits (not_split_here op.op_type layer sid)
        | op_aggregate ↦ within and_then demand splits (not_split_here op.op_type layer sid)
        | op_expert ↦
            demand (elem sid (live_owners_of layer op.expert_id))
              (not_an_owner layer op.expert_id sid)
        | _ ↦ none
      ]

  abbrev pub authorized_if : Option OpDescriptor → String → Check
  authorized_if none sid = none
  authorized_if (some op) sid = authorized_op op sid

  unfoldable pub authorized : ProvenanceEntry → Check
  authorized e = authorized_if e.op e.node_id

  module _ (utf8 : String → Bytes) (blake2b : Bytes → Bytes) where
    unfoldable pub validate_chain : List ProvenanceEntry → Option Bytes → Check
    unfolding starts_and_ends complete split_ops_by_layer split_layer for_all authorized
        tail_matches
    validate_chain chain tail_tensor_bytes =
        starts_and_ends chain
        and_then complete total_layers chain
        and_then for_all split_layer (split_ops_by_layer chain [])
        and_then for_all authorized chain
        and_then tail_matches utf8 blake2b chain tail_tensor_bytes
