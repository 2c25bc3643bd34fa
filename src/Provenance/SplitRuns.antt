-- ===== src/Provenance/SplitRuns.antt =====
-- What rule 3 of `validate_chain` makes sure of.
use model_shard.Prelude.{
  ℕ, ◌≡◌, refl, sym, ◌∙◌, Bool, true, false, none, List, [], ◌∷◌, map, any, all, All, All-lookup,
  elem, filter, not, ◌&&◌, ==_iff, lookup, contains, lookup-of_contains, length, nat_equals,
  string_eq, nat_eq, list_eq, arith,
}
use model_shard.Provenance.Request.{
  Bytes, OpType, op_attention_route, op_expert, op_aggregate, op_shared_expert, op_type_eq,
  ProvenanceEntry,
}
use model_shard.Provenance.Chain.{
  demand, for_all, Bucket, is_split, entries_of, bucket_at, split_ops_by_layer, expert_of,
  distinct_experts, expert_is_parent, parents_complete, has_any, split_layer,
}
use model_shard.Provenance.Groups.{
  demand-none, and_then-none, for_all-none, is_at, splits, entries_of-split_ops_by_layer,
  contains-split_ops_by_layer,
}

-- No two experts of a layer answer for the same number.
abbrev pub has_no_repeat : List ℕ → Bool
has_no_repeat [] = true
has_no_repeat (n ∷ ns) = not (elem n ns) && has_no_repeat ns

-- The operations of a split layer: one route, one shared expert, one aggregate and experts that do
-- not repeat, with the shared expert and every expert among the parents of the aggregate.
pub record IsSplitRun (layer : ℕ) (chain : List ProvenanceEntry) : Type 0 where
  pub route : ProvenanceEntry
  pub shared : ProvenanceEntry
  pub aggregate : ProvenanceEntry
  pub one_route : filter (is_at op_attention_route layer) chain ≡ route ∷ []
  pub one_shared : filter (is_at op_shared_expert layer) chain ≡ shared ∷ []
  pub one_aggregate : filter (is_at op_aggregate layer) chain ≡ aggregate ∷ []
  pub an_expert : has_any (filter (is_at op_expert layer) chain) ≡ true
  pub no_repeat :
      has_no_repeat (map (λ e. expert_of e.op) (filter (is_at op_expert layer) chain)) ≡ true
  pub shared_is_parent : elem shared.hash aggregate.parent_hashes ≡ true
  pub experts_are_parents :
      all (λ e. elem e.hash aggregate.parent_hashes) (filter (is_at op_expert layer) chain) ≡ true

module _ {A : Type 0} where
  single : (xs : List A) → nat_equals (length xs) 1 ≡ true → (x : A) × (xs ≡ x ∷ [])
  single [] h = cc
  single (x ∷ []) h = (x, refl)
  single (x ∷ (y ∷ xs)) h = ground arith

all-for_all :
    (layer : ℕ) (parents : List Bytes) (es : List ProvenanceEntry)
    → All (λ e. expert_is_parent layer parents e ≡ none) es
    → all (λ e. elem e.hash parents) es ≡ true
all-for_all layer parents [] h = refl
all-for_all layer parents (e ∷ es) h =
    ground (arith, demand-none _ _ h.0, all-for_all layer parents es h.1)

-- The numbers that were seen are not among the rest, and the rest does not repeat.
abbrev misses : List ℕ → List ℕ → Bool
misses seen ns = all (λ n. not (elem n seen)) ns

misses_head :
    (n : ℕ) (seen ns : List ℕ)
    → misses (n ∷ seen) ns ≡ true
    → (misses seen ns ≡ true) × (elem n ns ≡ false)
misses_head n seen [] h = (refl, refl)
misses_head n seen (m ∷ ns) h =
    let ih = misses_head n seen ns (ground arith) in
    (ground (arith, ih.0), ground (arith, ih.1, ==_iff n m, ==_iff m n))

distinct_experts-none :
    (layer : ℕ) (seen : List ℕ) (es : List ProvenanceEntry)
    → distinct_experts layer seen es ≡ none
    → (misses seen (map (λ e. expert_of e.op) es) ≡ true)
      × (has_no_repeat (map (λ e. expert_of e.op) es) ≡ true)
unfolding distinct_experts
distinct_experts-none layer seen [] h = (refl, refl)
distinct_experts-none layer seen (e ∷ es) h =
    let (one, rest) = and_then-none (demand (not (elem (expert_of e.op) seen)) _) _ h in
    let fresh = demand-none _ _ one in
    let (old, later) = distinct_experts-none layer (expert_of e.op ∷ seen) es rest in
    let (kept, apart) = misses_head (expert_of e.op) seen _ old in
    (ground (arith, fresh, kept), ground (arith, apart, later))

parents-none :
    (layer : ℕ) (aggs shareds experts : List ProvenanceEntry) (agg shared : ProvenanceEntry)
    → aggs ≡ agg ∷ []
    → shareds ≡ shared ∷ []
    → parents_complete layer aggs shareds experts ≡ none
    → (elem shared.hash agg.parent_hashes ≡ true)
      × (all (λ e. elem e.hash agg.parent_hashes) experts ≡ true)
parents-none layer aggs shareds experts agg shared ea es h =
    let whole : parents_complete layer (agg ∷ []) (shared ∷ []) experts ≡ none = rw (ea, es) at h in
    let (one, each) = and_then-none _ _ whole in
    (
      demand-none _ _ one,
      all-for_all layer agg.parent_hashes experts
          (for_all-none (expert_is_parent layer agg.parent_hashes) experts each),
    )

module _ (layer : ℕ) (chain : List ProvenanceEntry) (bucket : Bucket)
    (gathered : (kind : OpType)
      → is_split kind ≡ true
      → entries_of kind bucket ≡ filter (is_at kind layer) chain) where
  split_layer-none : split_layer (layer, bucket) ≡ none → IsSplitRun layer chain
  unfolding split_layer
  split_layer-none h =
      let (routes, h₁) = and_then-none _ _ h in
      let (shareds, h₂) = and_then-none _ _ h₁ in
      let (experts, h₃) = and_then-none _ _ h₂ in
      let (aggs, h₄) = and_then-none _ _ h₃ in
      let es = entries_of op_expert bucket in
      let (distinct, parents) =
        and_then-none (distinct_experts layer [] es)
          (parents_complete layer (entries_of op_aggregate bucket)
            (entries_of op_shared_expert bucket) es)
          h₄ in
      let (r, er) = single _ (demand-none _ _ routes) in
      let (s, eh) = single _ (demand-none _ _ shareds) in
      let (a, ea) = single _ (demand-none _ _ aggs) in
      let (shared, each) = parents-none layer _ _ es a s ea eh parents in
      let g = gathered op_expert refl in
      record {
        route = r;
        shared = s;
        aggregate = a;
        one_route = sym (gathered op_attention_route refl) ∙ er;
        one_shared = sym (gathered op_shared_expert refl) ∙ eh;
        one_aggregate = sym (gathered op_aggregate refl) ∙ ea;
        an_expert = rw (← g) (demand-none _ _ experts);
        no_repeat = rw (← g) (distinct_experts-none layer [] es distinct).1;
        shared_is_parent = shared;
        experts_are_parents = rw (← g) each;
      }

pub split_layers-none :
    (chain : List ProvenanceEntry) (layer : ℕ)
    → for_all split_layer (split_ops_by_layer chain []) ≡ none
    → any (splits layer) chain ≡ true
    → IsSplitRun layer chain
unfolding contains lookup
split_layers-none chain layer h split =
    let d = split_ops_by_layer chain [] in
    let there : contains layer d ≡ true = rw (contains-split_ops_by_layer layer chain []) split in
    let (bucket, found) = lookup-of_contains layer d there in
    split_layer-none layer chain bucket
      (λ kind s.
        let g = entries_of-split_ops_by_layer kind layer chain [] s in
        let at : bucket_at layer d ≡ bucket = rw found refl in rw (← at) g)
      (All-lookup (λ x. split_layer x ≡ none) layer bucket d (for_all-none split_layer d h) found)
