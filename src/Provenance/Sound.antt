-- ===== src/Provenance/Sound.antt =====
-- What a chain is that `validate_chain` accepts.
use model_shard.Prelude.{
  ℕ, ◌+◌, ◌≤◌, ◌<◌, String, ◌≡◌, refl, Bool, true, false, Option, none, some, List, [], ◌∷◌, any,
  all, All, All-weaken, elem, not, ==_iff, string_eq, nat_eq, list_eq, arith,
}
use model_shard.Provenance.Request.{
  Bytes, OpType, op_unspecified, op_embed, op_layer_atomic, op_attention_route, op_expert,
  op_aggregate, op_finalize, op_shared_expert, op_type_eq, OpDescriptor, ProvenanceEntry,
}
use model_shard.Provenance.Digest.{compute_hash}
use model_shard.Provenance.Chain.{
  ProvenanceError, demand, ◌and_then◌, for_all, is_op, starts_and_ends, complete, gapless,
  layers_covered, highest_of, has_finalize, split_ops_by_layer, split_layer, in_range,
  authorized_op, authorized_if, authorized, matches, tail_digest, last_of, tail_matches,
  validate_chain,
}
use model_shard.Provenance.Groups.{
  demand-none, and_then-none, for_all-none, all_but_last, finalize_last-none, runs_layer,
  elem-layers_covered, covers_below-none, highest_of-elem, splits,
}
use model_shard.Provenance.SplitRuns.{IsSplitRun, split_layers-none}

gapless-none :
    (covered : List ℕ) (l m : ℕ)
    → gapless covered ≡ none
    → l ≤ m
    → elem m covered ≡ true
    → elem l covered ≡ true
gapless-none [] l m h le there = cc
gapless-none (x ∷ xs) l m h le there =
    covers_below-none (highest_of x xs + 1) 0 (x ∷ xs) l h (omega arith)
      (omega (arith, highest_of-elem m x xs there))

module _ (shard_lookup : String → ℕ × ℕ) (total_layers : ℕ)
    (split_layers_for_shard : String → List ℕ) (live_owners_of : ℕ → ℕ → List String) where
  abbrev Within : ℕ → ℕ × ℕ → Type 0
  Within layer range = (range.0 ≤ layer) × (layer < range.1)

  -- Who may run an operation: the head embeds, the tail finalizes, a shard runs the layers of its
  -- range, whole or split as it holds them, and an expert is run by one of its live owners.
  abbrev pub MayRun : OpType → ℕ → ℕ → String → Type 0
  MayRun op_unspecified layer expert sid = Unit
  MayRun op_embed layer expert sid = (shard_lookup sid).0 ≡ 0
  MayRun op_layer_atomic layer expert sid =
      Within layer (shard_lookup sid) × (elem layer (split_layers_for_shard sid) ≡ false)
  MayRun op_attention_route layer expert sid =
      Within layer (shard_lookup sid) × (elem layer (split_layers_for_shard sid) ≡ true)
  MayRun op_expert layer expert sid = elem sid (live_owners_of layer expert) ≡ true
  MayRun op_aggregate layer expert sid =
      Within layer (shard_lookup sid) × (elem layer (split_layers_for_shard sid) ≡ true)
  MayRun op_finalize layer expert sid = (shard_lookup sid).1 ≡ total_layers
  MayRun op_shared_expert layer expert sid =
      Within layer (shard_lookup sid) × (elem layer (split_layers_for_shard sid) ≡ true)

  abbrev MayHaveRun : Option OpDescriptor → String → Type 0
  MayHaveRun none sid = Unit
  MayHaveRun (some op) sid = MayRun op.op_type op.layer_idx op.expert_id sid

  Within-none :
      (layer : ℕ) (sid : String) (error : ProvenanceError) (ok : Bool) (other : ProvenanceError)
      → (demand (in_range layer (shard_lookup sid)) error and_then demand ok other) ≡ none
      → Within layer (shard_lookup sid) × (ok ≡ true)
  Within-none layer sid error ok other h =
      let (r, k) =
        and_then-none (demand (in_range layer (shard_lookup sid)) error) (demand ok other) h in
      let inside = demand-none _ _ r in
      ((ground (arith, inside), ground (arith, inside)), demand-none _ _ k)

  authorized_op-none :
      (t : OpType) (layer expert : ℕ) (sid : String)
      → authorized_op shard_lookup total_layers split_layers_for_shard live_owners_of
          (record { op_type = t; layer_idx = layer; expert_id = expert })
          sid
        ≡ none
      → MayRun t layer expert sid
  authorized_op-none op_unspecified layer expert sid h = tt
  authorized_op-none op_embed layer expert sid h = ground (arith, demand-none _ _ h)
  authorized_op-none op_layer_atomic layer expert sid h =
      let (inside, whole) = Within-none layer sid _ _ _ h in (inside, ground (arith, whole))
  authorized_op-none op_attention_route layer expert sid h = Within-none layer sid _ _ _ h
  authorized_op-none op_expert layer expert sid h = demand-none _ _ h
  authorized_op-none op_aggregate layer expert sid h = Within-none layer sid _ _ _ h
  authorized_op-none op_finalize layer expert sid h = ground (arith, demand-none _ _ h)
  authorized_op-none op_shared_expert layer expert sid h = Within-none layer sid _ _ _ h

  authorized-none :
      (op : Option OpDescriptor) (sid : String)
      → authorized_if shard_lookup total_layers split_layers_for_shard live_owners_of op sid ≡ none
      → MayHaveRun op sid
  authorized-none none sid h = tt
  authorized-none (some op) sid h = authorized_op-none op.op_type op.layer_idx op.expert_id sid h

  module _ (utf8 : String → Bytes) (blake2b : Bytes → Bytes) where
    -- The last entry commits to the tensor that came with the chain.
    abbrev Commits : ProvenanceEntry → Bytes → Type 0
    Commits tail output_bytes =
        (op : OpDescriptor) × (tail.op ≡ some op)
        × (compute_hash utf8 blake2b tail.parent_hashes tail.node_id op output_bytes
            ≡ some tail.hash)

    matches-none :
        (tail : ProvenanceEntry) (expected : Option Bytes)
        → matches utf8 blake2b tail expected ≡ none
        → expected ≡ some tail.hash
    matches-none tail none h = cc
    matches-none tail (some expected) h =
        let e : expected ≡ tail.hash = (==_iff expected tail.hash).0 (demand-none _ _ h) in
        rw e refl

    tail_digest-none :
        (tail : ProvenanceEntry) (op : Option OpDescriptor) (bytes : Bytes)
        → tail.op ≡ op
        → tail_digest utf8 blake2b tail op bytes ≡ none
        → Commits tail bytes
    tail_digest-none tail none bytes e h = cc
    tail_digest-none tail (some op) bytes e h = (op, e, matches-none tail _ h)

    -- What acceptance promises of a chain and the tensor that came with it.
    pub record IsAccepted (chain : List ProvenanceEntry) (tensor : Option Bytes) : Type 0 where
      pub first : ProvenanceEntry
      pub rest : List ProvenanceEntry
      pub starts : chain ≡ first ∷ rest
      pub embeds : is_op op_embed first ≡ true
      pub ends : all (λ e. not (is_op op_finalize e)) (all_but_last chain) ≡ true
      pub finished :
          has_finalize chain ≡ true
          → (layer : ℕ) → layer < total_layers
          → any (runs_layer layer) chain ≡ true
      pub no_gap :
          has_finalize chain ≡ false
          → (layer later : ℕ) → layer ≤ later
          → any (runs_layer later) chain ≡ true
          → any (runs_layer layer) chain ≡ true
      pub split_runs : (layer : ℕ) → any (splits layer) chain ≡ true → IsSplitRun layer chain
      pub all_allowed : All (λ e. MayHaveRun e.op e.node_id) chain
      pub commits : (bytes : Bytes) → tensor ≡ some bytes → Commits (last_of first rest) bytes

    complete-none :
        (chain : List ProvenanceEntry)
        → complete total_layers chain ≡ none
        → (has_finalize chain ≡ true
            → (layer : ℕ) → layer < total_layers
            → any (runs_layer layer) chain ≡ true)
          × (has_finalize chain ≡ false
              → (layer later : ℕ) → layer ≤ later
              → any (runs_layer later) chain ≡ true
              → any (runs_layer layer) chain ≡ true)
    unfolding complete
    complete-none chain h = (
      λ final layer below. rw (← elem-layers_covered layer chain) (
          covers_below-none total_layers 0 (layers_covered chain) layer (rw final at h)
            (omega arith) (omega (arith, below))),
      λ partial layer later le there. rw (← elem-layers_covered layer chain) (
          gapless-none (layers_covered chain) layer later (rw partial at h) le
            (rw (elem-layers_covered later chain) there)),
    )

    tail_matches-none :
        (e : ProvenanceEntry) (es : List ProvenanceEntry) (bytes : Bytes)
        → tail_matches utf8 blake2b (e ∷ es) (some bytes) ≡ none
        → Commits (last_of e es) bytes
    unfolding tail_matches
    tail_matches-none e es bytes h =
        let tail = last_of e es in tail_digest-none tail tail.op bytes refl h

    tail-Commits :
        (e : ProvenanceEntry) (es : List ProvenanceEntry) (tensor : Option Bytes) (bytes : Bytes)
        → tail_matches utf8 blake2b (e ∷ es) tensor ≡ none
        → tensor ≡ some bytes
        → Commits (last_of e es) bytes
    tail-Commits e es tensor bytes h given = tail_matches-none e es bytes (rw given at h)

    -- A chain that validate_chain accepts has the shape of a forward pass. It begins with an embedding,
    -- and only its last entry may finalize; when one finalizes, every layer of the model was run, and
    -- otherwise no layer below one that was run is missing; every split layer has one route, one shared
    -- expert, one aggregate and experts that do not repeat, all of them parents of the aggregate; each
    -- entry stands for an operation that its node may run; and when a tensor comes with the chain, the
    -- hash of the last entry is the digest that commits to it.
    pub validate_chain-IsAccepted :
        (chain : List ProvenanceEntry) (tensor : Option Bytes)
        → validate_chain shard_lookup total_layers split_layers_for_shard live_owners_of utf8
            blake2b chain tensor
          ≡ none
        → IsAccepted chain tensor
    unfolding validate_chain starts_and_ends authorized
    validate_chain-IsAccepted [] tensor h = cc
    validate_chain-IsAccepted (e ∷ es) tensor h =
        let (outer, h₁) = and_then-none (starts_and_ends (e ∷ es)) _ h in
        let (layers, h₂) = and_then-none (complete total_layers (e ∷ es)) _ h₁ in
        let (split, h₃) =
          and_then-none (for_all split_layer (split_ops_by_layer (e ∷ es) [])) _ h₂ in
        let check = authorized shard_lookup total_layers split_layers_for_shard live_owners_of in
        let (allowed, tail) = and_then-none (for_all check (e ∷ es)) _ h₃ in
        let (embeds, ends) = and_then-none _ _ outer in
        let (finished, no_gap) = complete-none (e ∷ es) layers in
        record {
          first = e;
          rest = es;
          starts = refl;
          embeds = demand-none _ _ embeds;
          ends = finalize_last-none (e ∷ es) ends;
          finished = finished;
          no_gap = no_gap;
          split_runs = λ layer there. split_layers-none (e ∷ es) layer split there;
          all_allowed =
              All-weaken _ _ (e ∷ es) (λ x ok. authorized-none x.op x.node_id ok)
                (for_all-none check (e ∷ es) allowed);
          commits = λ bytes given. tail-Commits e es tensor bytes tail given;
        }
