-- ===== src/Node/Serving.antt =====
-- A request for experts is answered for experts that the node holds.
use model_shard.Prelude.{
  ℕ, String, ◌≡◌, Bool, true, false, Option, none, some, List, [], all, elem, length, Dict, lookup,
  nat_eq,
}
use model_shard.Provenance.Request.{Bytes, ProvenanceEntry}
use model_shard.Provenance.Digest.{entry_from_pb}
use model_shard.Wire.Messages.{each}
use model_shard.Node.Ownership.{ids_at}
use model_shard.Node.Experts.{
  ExpertRequest, ExpertResponse, ExpertReply, expert_response, expert_error, Compute, ExpertServer,
  accepted,
}

-- The response of a reply, `other` where it is an error.
abbrev response_of : ExpertResponse → ExpertReply → ExpertResponse
response_of other (expert_response r) = r
response_of other (expert_error code) = other

module _ {Tensor : Type 0} (b : Compute Tensor) (utf8 : String → Bytes) (blake2b : Bytes → Bytes)
    (total_layers now : ℕ) (provenance_enabled : Bool) where
  -- The outputs in a response are those of the experts asked for, in their order, on the tensor sent.
  pub data IsComputed (req : ExpertRequest) (tensor_bytes raw : Bytes) : Type 0 where
    computed_by :
        (h : Tensor) (outputs : Dict ℕ Tensor) (tensors : List Tensor)
        → b.bytes_to_tensor tensor_bytes ≡ some h
        → b.run_selected_experts req.layer_idx h req.expert_ids ≡ some outputs
        → each (λ e. lookup e outputs) req.expert_ids ≡ some tensors
        → b.stacked tensors ≡ some raw
        → IsComputed req tensor_bytes raw

  -- The node does not check provenance, or no chain came with the request, or the one that came passed
  -- validate_chain against the tensor.
  pub data IsVetted (req : ExpertRequest) (tensor_bytes : Bytes) (s : ExpertServer) : Type 0 where
    not_enabled : provenance_enabled ≡ false → IsVetted req tensor_bytes s
    no_chain : req.provenance ≡ [] → IsVetted req tensor_bytes s
    vetted :
        (chain : List ProvenanceEntry)
        → each entry_from_pb req.provenance ≡ some chain
        → accepted b utf8 blake2b total_layers now provenance_enabled s tensor_bytes chain ≡ none
        → IsVetted req tensor_bytes s

  pub record IsAnswer (req : ExpertRequest) (tensor_bytes : Bytes) (s : ExpertServer)
      (r : ExpertResponse) : Type 0 where
    pub held : all (λ e. elem e (ids_at req.layer_idx s.live_experts)) req.expert_ids ≡ true
    pub whole : req.byte_count ≡ length tensor_bytes
    pub same_ids : r.expert_ids ≡ req.expert_ids
    pub outputs : IsComputed req tensor_bytes r.raw
    pub chain : IsVetted req tensor_bytes s
