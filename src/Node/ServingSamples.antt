-- ===== src/Node/ServingSamples.antt =====
-- A request for two experts of layer 5, to a node that holds both.
use model_shard.Prelude.{◌+◌, String, some, List, [], ◌∷◌, ◌++◌, map, nat_eq}
use model_shard.Provenance.Request.{Bytes}
use model_shard.Node.Samples.{both_shards}
use model_shard.Node.Experts.{ExpertRequest, ExpertResponse, Compute, ExpertServer}

abbrev joined : List Bytes → Bytes
joined [] = []
joined (b ∷ bs) = b ++ joined bs

-- The expert `e` adds `e` to every byte.
abbrev adding : Compute Bytes
adding = record {
  bytes_to_tensor = λ bytes. some bytes;
  run_selected_experts = λ layer h ids. some (map (λ e. (e, map (λ x. x + e) h)) ids);
  stacked = λ tensors. some (joined tensors);
  tensor_to_bytes = λ t. t;
}

abbrev holder : ExpertServer
holder = record {
  shard_id = "a";
  shard_map = both_shards;
  live_experts = (5, 0 ∷ 1 ∷ 2 ∷ []) ∷ [];
  ownership_view_internal = [];
}

abbrev asked : ExpertRequest
asked = record { layer_idx = 5; expert_ids = 2 ∷ 1 ∷ []; byte_count = 2; provenance = [] }

abbrev answer : ExpertResponse
answer = record {
  layer_idx = 5;
  expert_ids = 2 ∷ 1 ∷ [];
  raw = 12 ∷ 22 ∷ 11 ∷ 21 ∷ [];
  provenance = [];
}

abbrev plain : String → Bytes
plain s = []

abbrev same : Bytes → Bytes
same bytes = bytes
