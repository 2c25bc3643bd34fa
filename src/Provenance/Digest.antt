-- ===== src/Provenance/Digest.antt =====
-- Hashes and entries, and their protobuf form: the first half of src/model_shard/provenance.py.
use model_shard.Prelude.{
  ℕ, String, ◌≡◌, refl, Option, none, some, List, [], ◌∷◌, ◌++◌, ◌&&◌, if◌then◌else◌, arith,
}
use model_shard.Prelude.Maybe.{◌>>=◌, some->>=}
use model_shard.Provenance.Request.{
  Bytes, op_code, op_type_of, op_type_of-op_code, OpDescriptor, pack, is_u32, ProvenanceEntry,
}

abbrev pub joined_bytes : List Bytes → Bytes
joined_bytes [] = []
joined_bytes (b ∷ bs) = b ++ joined_bytes bs

-- `utf8` is str.encode("utf-8") and `blake2b` the digest of hashlib.blake2b(digest_size=32).
module _ (utf8 : String → Bytes) (blake2b : Bytes → Bytes) where
  unfoldable pub compute_hash : List Bytes → String → OpDescriptor → Bytes → Option Bytes
  unfolding pack
  compute_hash parent_hashes node_id op output_bytes = do
    packed ← pack op
    some (blake2b (joined_bytes parent_hashes ++ utf8 node_id ++ packed ++ output_bytes))

  -- `output_bytes` is tensor_to_bytes(output_tensor), `now` is time.time().
  unfoldable pub build_entry :
      String → OpDescriptor → Bytes → List Bytes → ℕ → Option ProvenanceEntry
  unfolding compute_hash
  build_entry node_id op output_bytes parent_hashes now = do
    digest ← compute_hash parent_hashes node_id op output_bytes
    some (record {
      shard_id = node_id;
      node_id = node_id;
      timestamp = now;
      hash = digest;
      parent_hashes = parent_hashes;
      op = some op;
    })

-- The messages of proto/wire.proto. A uint32 field does not take a number from 2 ^ 32 on.
pub record OpDescriptorPb : Type 0 where
  pub op_type : ℕ
  pub layer_idx : ℕ
  pub expert_id : ℕ

pub record ProvenanceEntryPb : Type 0 where
  pub hash : Bytes
  pub parent_hashes : List Bytes
  pub node_id : String
  pub op : Option OpDescriptorPb
  pub timestamp : ℕ

-- The assignments to `pb.op`, none where one raises a ValueError.
abbrev pub op_to_pb : OpDescriptor → Option OpDescriptorPb
op_to_pb op =
    if is_u32 op.layer_idx && is_u32 op.expert_id
    then some (record {
      op_type = op_code op.op_type;
      layer_idx = op.layer_idx;
      expert_id = op.expert_id;
    })
    else none

abbrev pb_of : ProvenanceEntry → Option OpDescriptorPb → ProvenanceEntryPb
pb_of entry op = record {
  hash = entry.hash;
  parent_hashes = entry.parent_hashes;
  node_id = entry.node_id;
  op = op;
  timestamp = entry.timestamp;
}

abbrev filled : ProvenanceEntry → Option OpDescriptor → Option ProvenanceEntryPb
filled entry none = some (pb_of entry none)
filled entry (some op) = do op_pb ← op_to_pb op; some (pb_of entry (some op_pb))

unfoldable pub entry_to_pb : ProvenanceEntry → Option ProvenanceEntryPb
entry_to_pb entry = filled entry entry.op

abbrev pub op_from_pb : OpDescriptorPb → Option OpDescriptor
op_from_pb op = do
  op_type ← op_type_of op.op_type
  some (record { op_type = op_type; layer_idx = op.layer_idx; expert_id = op.expert_id })

abbrev entry_of : ProvenanceEntryPb → Option OpDescriptor → ProvenanceEntry
entry_of pb op = record {
  shard_id = pb.node_id;
  node_id = pb.node_id;
  timestamp = pb.timestamp;
  hash = pb.hash;
  parent_hashes = pb.parent_hashes;
  op = op;
}

abbrev emptied : ProvenanceEntryPb → Option OpDescriptorPb → Option ProvenanceEntry
emptied pb none = some (entry_of pb none)
emptied pb (some op_pb) = do op ← op_from_pb op_pb; some (entry_of pb (some op))

unfoldable pub entry_from_pb : ProvenanceEntryPb → Option ProvenanceEntry
entry_from_pb pb = emptied pb pb.op

emptied-filled :
    (entry : ProvenanceEntry) (op : Option OpDescriptor) (pb : ProvenanceEntryPb)
    → filled entry op ≡ some pb
    → emptied pb pb.op ≡ some (record entry { shard_id = entry.node_id; op = op })
emptied-filled entry none pb sent = let e : pb_of entry none ≡ pb = ground arith in rw (← e) refl
emptied-filled entry (some op) pb sent =
    let (op_pb, packed, whole) = some->>= (op_to_pb op) _ pb sent in
    let e : pb_of entry (some op_pb) ≡ pb = ground arith in
    let same : record {
      op_type = op_code op.op_type;
      layer_idx = op.layer_idx;
      expert_id = op.expert_id;
    }
        ≡ op_pb =
      ground arith in
    rw (← e, ← same, op_type_of-op_code) refl

-- An entry that is sent comes back: whatever entry_to_pb makes of it, entry_from_pb gives the entry
-- again, with its node id for its shard id.
pub entry_from_pb-entry_to_pb :
    (entry : ProvenanceEntry) (pb : ProvenanceEntryPb)
    → entry_to_pb entry ≡ some pb
    → entry_from_pb pb ≡ some (record entry { shard_id = entry.node_id })
unfolding entry_to_pb entry_from_pb
entry_from_pb-entry_to_pb entry pb sent = emptied-filled entry entry.op pb sent
