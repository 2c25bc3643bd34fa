-- ===== src/Node/Experts.antt =====
-- `_handle_expert_request`: a peer asks for the outputs of experts that this node holds. The backend's
-- tensors are a parameter; a call that raises gives none. What `_send_error` and `send_envelope` write is
-- the reply. The count of requests in flight, which handlers on several threads change without a lock, and
-- the LoadTracker that is fed with it are left out.
use model_shard.Prelude.{
  ℕ, String, Bool, false, Option, none, some, List, [], ◌∷◌, elem, filter, not, length, nat_equals,
  if◌then◌else◌, Dict, lookup, nat_eq,
}
use model_shard.Prelude.Maybe.{◌>>=◌}
use model_shard.Provenance.Request.{Bytes, op_expert, ProvenanceEntry}
use model_shard.Provenance.Digest.{ProvenanceEntryPb, build_entry, entry_to_pb, entry_from_pb}
use model_shard.Provenance.Chain.{last_of, validate_chain, ProvenanceError}
use model_shard.Runner.Ownership.{OwnershipView}
use model_shard.Wire.Messages.{each}
use model_shard.Node.Directory.{ShardMap, shard_lookup, split_layers_for_shard}
use model_shard.Node.Ownership.{ids_at, owners_in}
use model_shard.Node.Requests.{
  ErrorCode, err_internal, err_wrong_shard, err_shard_unavailable, err_invalid_provenance,
}

pub record ExpertRequest : Type 0 where
  pub layer_idx : ℕ
  pub expert_ids : List ℕ
  pub byte_count : ℕ
  pub provenance : List ProvenanceEntryPb

pub record ExpertResponse : Type 0 where
  pub layer_idx : ℕ
  pub expert_ids : List ℕ
  pub raw : Bytes
  pub provenance : List ProvenanceEntryPb

pub data ExpertReply : Type 0 where
  expert_response : ExpertResponse → ExpertReply
  expert_error : ErrorCode → ExpertReply

-- The calls of the backend: bytes_to_tensor, run_selected_experts, the stack of the outputs as bytes, and
-- tensor_to_bytes.
pub record Compute (Tensor : Type 0) : Type 0 where
  pub bytes_to_tensor : Bytes → Option Tensor
  pub run_selected_experts : ℕ → Tensor → List ℕ → Option (Dict ℕ Tensor)
  pub stacked : List Tensor → Option Bytes
  pub tensor_to_bytes : Tensor → Bytes

-- What the handler reads of the node.
pub record ExpertServer : Type 0 where
  pub shard_id : String
  pub shard_map : ShardMap
  pub live_experts : Dict ℕ (List ℕ)
  pub ownership_view_internal : OwnershipView

-- The reply that is written, none where an exception leaves the handler.
abbrev pub Replied : Type 0
Replied = Option ExpertReply

module _ {Tensor : Type 0} (b : Compute Tensor) (utf8 : String → Bytes) (blake2b : Bytes → Bytes)
    (total_layers now : ℕ) (provenance_enabled : Bool) where
  abbrev pub missing_of : ExpertRequest → ExpertServer → List ℕ
  missing_of req s = filter (λ e. not (elem e (ids_at req.layer_idx s.live_experts))) req.expert_ids

  -- [outputs[eid] for eid in requested]
  abbrev pub outputs_of : List ℕ → Dict ℕ Tensor → Option (List Tensor)
  outputs_of ids outputs = each (λ e. lookup e outputs) ids

  -- The chain that came with the request, checked; the error is that of the chain.
  abbrev pub accepted : ExpertServer → Bytes → List ProvenanceEntry → Option ProvenanceError
  accepted s tensor_bytes chain =
      validate_chain (shard_lookup s.shard_map) total_layers (split_layers_for_shard s.shard_map)
        (λ layer expert. owners_in layer expert s.ownership_view_internal) utf8 blake2b chain
        (some tensor_bytes)

  abbrev pub expert_entry : String → ℕ → Bytes → Dict ℕ Tensor → ℕ → Option ProvenanceEntryPb
  expert_entry node_id layer ar_hash outputs e = do
    output ← lookup e outputs
    entry ←
        build_entry utf8 blake2b node_id
          (record { op_type = op_expert; layer_idx = layer; expert_id = e })
          (b.tensor_to_bytes output) (ar_hash ∷ []) now
    entry_to_pb entry

  abbrev pub entries_for :
      List ProvenanceEntry
      → ExpertServer
      → ExpertRequest
      → Dict ℕ Tensor
      → Option (List ProvenanceEntryPb)
  entries_for [] s req outputs = some []
  entries_for (c ∷ chain) s req outputs =
      each (expert_entry s.shard_id req.layer_idx (last_of c chain).hash outputs) req.expert_ids

  abbrev pub respond :
      List ProvenanceEntry → ExpertServer → ExpertRequest → Dict ℕ Tensor → Bytes → Replied
  respond chain s req outputs raw = do
    entries ← entries_for chain s req outputs
    some (
        expert_response (record {
          layer_idx = req.layer_idx;
          expert_ids = req.expert_ids;
          raw = raw;
          provenance = entries;
        }))

  -- The outputs and their bytes, none where the computation raises.
  abbrev pub computed : ExpertRequest → Tensor → Option (Dict ℕ Tensor × Bytes)
  computed req h = do
    outputs ← b.run_selected_experts req.layer_idx h req.expert_ids
    tensors ← outputs_of req.expert_ids outputs
    raw ← b.stacked tensors
    some (outputs, raw)

  abbrev pub respond_if :
      List ProvenanceEntry → ExpertServer → ExpertRequest → Option (Dict ℕ Tensor × Bytes) → Replied
  respond_if chain s req none = some (expert_error err_shard_unavailable)
  respond_if chain s req (some (outputs, raw)) = respond chain s req outputs raw

  abbrev pub run_checked :
      List ProvenanceEntry
      → ExpertServer
      → ExpertRequest
      → Tensor
      → Option ProvenanceError
      → Replied
  run_checked chain s req h (some error) = some (expert_error err_invalid_provenance)
  run_checked chain s req h none = respond_if chain s req (computed req h)

  abbrev pub is_tracked : List ProvenanceEntryPb → Bool
  is_tracked [] = false
  is_tracked (p ∷ ps) = provenance_enabled

  -- The body of the outer `try`.
  abbrev pub serve_request : ExpertServer → ExpertRequest → Bytes → Tensor → Replied
  serve_request s req tensor_bytes h =
      if is_tracked req.provenance
      then (do
        chain ← each entry_from_pb req.provenance
        run_checked chain s req h (accepted s tensor_bytes chain))
      else run_checked [] s req h none

  -- An array that does not come of the bytes is an exception, which leaves the handler.
  abbrev pub with_tensor : ExpertRequest → Bytes → ExpertServer → Option Tensor → Replied
  with_tensor req tensor_bytes s none = none
  with_tensor req tensor_bytes s (some h) = serve_request s req tensor_bytes h

  abbrev pub refused_for : ExpertRequest → Bytes → List ℕ → Option ErrorCode
  refused_for req tensor_bytes (m ∷ ms) = some err_wrong_shard
  refused_for req tensor_bytes [] =
      if nat_equals req.byte_count (length tensor_bytes) then none else some err_internal

  -- The guards on the request.
  abbrev pub refused_as : ExpertRequest → Bytes → ExpertServer → List ℕ → Option ErrorCode
  refused_as req tensor_bytes s [] = some err_internal
  refused_as req tensor_bytes s (e ∷ es) = refused_for req tensor_bytes (missing_of req s)

  abbrev pub reply_unless : Option ErrorCode → ExpertRequest → Bytes → ExpertServer → Replied
  reply_unless (some code) req tensor_bytes s = some (expert_error code)
  reply_unless none req tensor_bytes s =
      with_tensor req tensor_bytes s (b.bytes_to_tensor tensor_bytes)

  unfoldable pub handle_expert_request : ExpertRequest → Bytes → ExpertServer → Replied
  unfolding validate_chain
  handle_expert_request req tensor_bytes s =
      reply_unless (refused_as req tensor_bytes s req.expert_ids) req tensor_bytes s
