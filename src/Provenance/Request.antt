-- ===== src/Provenance/Request.antt =====
-- The data of src/model_shard/request.py. A timestamp, a float that nothing here computes with, is a
-- natural number.
use model_shard.Prelude.{
  ℕ, ◌/◌, ◌%◌, ◌<◌, String, ◌≡◌, refl, sym, ap, ◌∙◌, ◌↔◌, Bool, true, Option, none, some, List, [],
  ◌∷◌, ◌++◌, nat_equals, ◌&&◌, if◌then◌else◌, Comparable, arith, get_elem?,
}
pub use model_shard.Prelude.Bytes.{Bytes, is_u32}

pub data OpType : Type 0 where
  op_unspecified : OpType
  op_embed : OpType
  op_layer_atomic : OpType
  op_attention_route : OpType
  op_expert : OpType
  op_aggregate : OpType
  op_finalize : OpType
  op_shared_expert : OpType

-- int(op_type)
abbrev pub op_code : OpType → ℕ
op_code op_unspecified = 0
op_code op_embed = 1
op_code op_layer_atomic = 2
op_code op_attention_route = 3
op_code op_expert = 4
op_code op_aggregate = 5
op_code op_finalize = 6
op_code op_shared_expert = 7

-- The members, in the order of their numbers.
abbrev pub op_types : List OpType
op_types =
    op_unspecified ∷ op_embed ∷ op_layer_atomic ∷ op_attention_route ∷ op_expert ∷ op_aggregate
    ∷ op_finalize ∷ op_shared_expert ∷ []

-- OpType(n): a ValueError, none, for a number of no member.
abbrev pub op_type_of : ℕ → Option OpType
op_type_of n = get_elem? op_types n

pub op_type_of-op_code : (t : OpType) → op_type_of (op_code t) ≡ some t
op_type_of-op_code op_unspecified = refl
op_type_of-op_code op_embed = refl
op_type_of-op_code op_layer_atomic = refl
op_type_of-op_code op_attention_route = refl
op_type_of-op_code op_expert = refl
op_type_of-op_code op_aggregate = refl
op_type_of-op_code op_finalize = refl
op_type_of-op_code op_shared_expert = refl

pub op_code_injective : (t u : OpType) → op_code t ≡ op_code u → t ≡ u
op_code_injective t u h =
    let same : some t ≡ some u =
      sym (op_type_of-op_code t) ∙ ap op_type_of h ∙ op_type_of-op_code u in
    cc

abbrev pub same_op : OpType → OpType → Bool
same_op t u = nat_equals (op_code t) (op_code u)

pub same_op_iff : (t u : OpType) → (same_op t u ≡ true) ↔ (t ≡ u)
same_op_iff t u = (λ h. op_code_injective t u (ground arith), λ h. rw h (ground arith))

instance abbrev pub op_type_eq : Comparable OpType
op_type_eq = record { equals = same_op; equals_iff = same_op_iff }

pub record OpDescriptor : Type 0 where
  pub op_type : OpType
  pub layer_idx : ℕ
  pub expert_id : ℕ

-- The four bytes of "I" of `struct`, the lowest first.
abbrev pub le_bytes : ℕ → Bytes
le_bytes n = n % 256 ∷ n / 256 % 256 ∷ n / 65536 % 256 ∷ n / 16777216 % 256 ∷ []

-- struct.pack("<BII", ...): a struct.error, none, when a number does not fit.
unfoldable pub pack : OpDescriptor → Option Bytes
pack op =
    if is_u32 op.layer_idx && is_u32 op.expert_id
    then some (op_code op.op_type ∷ le_bytes op.layer_idx ++ le_bytes op.expert_id)
    else none

pub record ProvenanceEntry : Type 0 where
  pub shard_id : String
  pub node_id : String
  pub timestamp : ℕ
  pub hash : Bytes
  pub parent_hashes : List Bytes
  pub op : Option OpDescriptor

pub record Request : Type 0 where
  pub request_id : String
  pub sequence_id : String
  pub prompt_token_ids : List ℕ
  pub position : ℕ
  pub provenance : List ProvenanceEntry

-- `now` is what time.time() returns.
unfoldable pub append_provenance :
    String → String → Bytes → List Bytes → Option OpDescriptor → ℕ → Request → Request
append_provenance shard_id node_id digest parents op now request = record request {
  provenance =
      request.provenance
      ++ record {
        shard_id = shard_id;
        node_id = node_id;
        timestamp = now;
        hash = digest;
        parent_hashes = parents;
        op = op;
      }
        ∷ [];
}

le_bytes_injective : (n m : ℕ) → is_u32 n ≡ true → is_u32 m ≡ true → le_bytes n ≡ le_bytes m → n ≡ m
le_bytes_injective n m small small' h =
    let b0 : n % 256 ≡ m % 256 = ground arith in
    let b1 : n / 256 % 256 ≡ m / 256 % 256 = ground arith in
    let b2 : n / 65536 % 256 ≡ m / 65536 % 256 = ground arith in
    let b3 : n / 16777216 % 256 ≡ m / 16777216 % 256 = ground arith in
    let lo : n < 4294967296 = ground arith in
    let lo' : m < 4294967296 = ground arith in omega (arith, b0, b1, b2, b3, lo, lo')

-- The nine bytes that enter the hash determine the operation: two descriptors that both pack, to the
-- same bytes, are equal.
pub pack_injective :
    (p q : OpDescriptor) (bytes : Bytes) → pack p ≡ some bytes → pack q ≡ some bytes → p ≡ q
unfolding pack
pack_injective p q bytes h k =
    let fits : (is_u32 p.layer_idx && is_u32 p.expert_id) ≡ true = ground arith in
    let fits' : (is_u32 q.layer_idx && is_u32 q.expert_id) ≡ true = ground arith in
    let same : op_code p.op_type ∷ le_bytes p.layer_idx ++ le_bytes p.expert_id
        ≡ op_code q.op_type ∷ le_bytes q.layer_idx ++ le_bytes q.expert_id =
      ground arith in
    let types = op_code_injective p.op_type q.op_type (ground arith) in
    let layers =
      le_bytes_injective p.layer_idx q.layer_idx (ground arith) (ground arith) (ground arith) in
    let experts =
      le_bytes_injective p.expert_id q.expert_id (ground arith) (ground arith) (ground arith) in
    ground (arith, types, layers, experts)
