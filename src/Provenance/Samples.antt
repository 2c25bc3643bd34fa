-- ===== src/Provenance/Samples.antt =====
-- A model of two layers on one node, the second layer split, and the chain of a whole pass.
use model_shard.Prelude.{ℕ, String, ◌≡◌, refl, none, some, List, [], ◌∷◌, lookup, insert}
use model_shard.Provenance.Request.{
  Bytes, OpType, op_embed, op_layer_atomic, op_attention_route, op_expert, op_aggregate,
  op_finalize, op_shared_expert, OpDescriptor, pack, pack_injective, ProvenanceEntry,
}
use model_shard.Provenance.Digest.{
  entry_to_pb, entry_from_pb, ProvenanceEntryPb, entry_from_pb-entry_to_pb,
}
use model_shard.Provenance.Chain.{validate_chain, split_ops_by_layer, for_all}
use model_shard.Provenance.Sound.{IsAccepted, validate_chain-IsAccepted}

-- Stand-ins for the encoding and the digest: the name is left out, and the bytes are their own digest.
abbrev no_name : String → Bytes
no_name s = []

abbrev itself : Bytes → Bytes
itself bytes = bytes

abbrev range_of : String → ℕ × ℕ
range_of s = (0, 2)

abbrev splits_of : String → List ℕ
splits_of s = 1 ∷ []

abbrev owners_of : ℕ → ℕ → List String
owners_of layer expert = "a" ∷ "b" ∷ []

abbrev operation : OpType → ℕ → ℕ → OpDescriptor
operation t layer expert = record { op_type = t; layer_idx = layer; expert_id = expert }

abbrev entry : String → OpType → ℕ → ℕ → Bytes → List Bytes → ProvenanceEntry
entry node t layer expert digest parents = record {
  shard_id = node;
  node_id = node;
  timestamp = 0;
  hash = digest;
  parent_hashes = parents;
  op = some (operation t layer expert);
}

-- The last digest: its parent, the nine bytes of the operation, the tensor.
abbrev last_digest : Bytes
last_digest = 16 ∷ 6 ∷ 0 ∷ 0 ∷ 0 ∷ 0 ∷ 0 ∷ 0 ∷ 0 ∷ 0 ∷ 99 ∷ []

abbrev chain : List ProvenanceEntry
chain =
    entry "a" op_embed 0 0 (10 ∷ []) []
    ∷ entry "a" op_layer_atomic 0 0 (11 ∷ []) ((10 ∷ []) ∷ [])
    ∷ entry "a" op_attention_route 1 0 (12 ∷ []) ((11 ∷ []) ∷ [])
    ∷ entry "a" op_shared_expert 1 0 (13 ∷ []) ((12 ∷ []) ∷ [])
    ∷ entry "a" op_expert 1 4 (14 ∷ []) ((12 ∷ []) ∷ [])
    ∷ entry "b" op_expert 1 7 (15 ∷ []) ((12 ∷ []) ∷ [])
    ∷ entry "a" op_aggregate 1 0 (16 ∷ []) ((13 ∷ []) ∷ (14 ∷ []) ∷ (15 ∷ []) ∷ [])
    ∷ entry "a" op_finalize 0 0 last_digest ((16 ∷ []) ∷ [])
    ∷ []

program : Unit {0}
unfolding validate_chain split_ops_by_layer for_all lookup insert entry_to_pb entry_from_pb pack
program = tt

accepted :
    validate_chain range_of 2 splits_of owners_of no_name itself chain (some (99 ∷ [])) ≡ none
unfolding program
accepted = refl

validate_chain-IsAccepted_example :
    IsAccepted range_of 2 splits_of owners_of no_name itself chain (some (99 ∷ []))
validate_chain-IsAccepted_example =
    validate_chain-IsAccepted range_of 2 splits_of owners_of no_name itself chain (some (99 ∷ []))
      accepted

abbrev an_expert : ProvenanceEntry
an_expert = entry "b" op_expert 1 7 (15 ∷ []) ((12 ∷ []) ∷ [])

abbrev an_expert_pb : ProvenanceEntryPb
an_expert_pb = record {
  hash = 15 ∷ [];
  parent_hashes = (12 ∷ []) ∷ [];
  node_id = "b";
  op = some (record { op_type = 4; layer_idx = 1; expert_id = 7 });
  timestamp = 0;
}

an_expert_sent : entry_to_pb an_expert ≡ some an_expert_pb
unfolding program
an_expert_sent = refl

entry_from_pb-entry_to_pb_example : entry_from_pb an_expert_pb ≡ some an_expert
entry_from_pb-entry_to_pb_example = entry_from_pb-entry_to_pb an_expert an_expert_pb an_expert_sent

packed : pack (operation op_expert 258 7) ≡ some (4 ∷ 2 ∷ 1 ∷ 0 ∷ 0 ∷ 7 ∷ 0 ∷ 0 ∷ 0 ∷ [])
unfolding program
packed = refl

pack_injective_example : operation op_expert 258 7 ≡ operation op_expert 258 7
pack_injective_example =
    pack_injective (operation op_expert 258 7) (operation op_expert 258 7) _ packed packed
