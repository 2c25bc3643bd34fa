-- ===== src/Node/Directory.antt =====
-- The directory of shards (src/model_shard/shard_map.py) and what a node reads from it: who comes next in
-- the pipeline, which layers a shard runs, and whether every shard is alive.
use model_shard.Prelude.{
  ℕ, ◌+◌, String, Bool, false, Option, none, some, List, [], ◌∷◌, ◌&&◌, not, ◌==◌, nat_equals,
  if◌then◌else◌, Dict, keys, lookup, string_eq,
}
use model_shard.Membership.Records.{MemberRecord}
use model_shard.Membership.Gossip.{is_alive}

pub record NodeAddress : Type 0 where
  pub host : String
  pub port : ℕ

pub record ShardSpec : Type 0 where
  pub shard_id : String
  pub address : NodeAddress
  pub start_layer : ℕ
  pub end_layer : ℕ
  pub moe_experts : Dict ℕ (List ℕ)

abbrev pub udp_port : ShardSpec → ℕ
udp_port spec = spec.address.port + 1000

pub record ShardMap : Type 0 where
  pub entries : Dict String ShardSpec
  pub model_id : String

-- `lookup`, whose KeyError is none.
abbrev pub lookup_shard : String → ShardMap → Option ShardSpec
lookup_shard sid m = lookup sid m.entries

abbrev pub all_shards : ShardMap → List String
all_shards m = keys m.entries

-- `is_head` and `is_tail` of a node.
abbrev pub is_head : ShardSpec → Bool
is_head shard = nat_equals shard.start_layer 0

abbrev pub is_tail : ℕ → ShardSpec → Bool
is_tail total_layers shard = nat_equals shard.end_layer total_layers

abbrev pub target_start : ShardSpec → ℕ → ℕ
target_start shard total_layers = if is_tail total_layers shard then 0 else shard.end_layer

abbrev pub is_next : ShardSpec → ℕ → ShardSpec → Bool
is_next shard total_layers peer =
    nat_equals peer.start_layer (target_start shard total_layers)
    && not (peer.shard_id == shard.shard_id)

-- The shards in the order of the directory; none is the ValueError.
unfoldable pub first_next : ShardSpec → ℕ → Dict String ShardSpec → Option ShardSpec
first_next shard total_layers [] = none
first_next shard total_layers ((sid, peer) ∷ entries) =
    let rest = first_next shard total_layers entries in
    if is_next shard total_layers peer then some peer else rest

unfoldable pub resolve_downstream : ShardSpec → ShardMap → ℕ → Option ShardSpec
unfolding first_next
resolve_downstream shard m total_layers = first_next shard total_layers m.entries

abbrev pub layers_of : Option ShardSpec → ℕ × ℕ
layers_of none = (0, 0)
layers_of (some spec) = (spec.start_layer, spec.end_layer)

-- `_shard_lookup`: (0, 0) for an unknown shard.
abbrev pub shard_lookup : ShardMap → String → ℕ × ℕ
shard_lookup m sid = layers_of (lookup_shard sid m)

abbrev pub split_layers_of : Option ShardSpec → List ℕ
split_layers_of none = []
split_layers_of (some spec) = keys spec.moe_experts

abbrev pub split_layers_for_shard : ShardMap → String → List ℕ
split_layers_for_shard m sid = split_layers_of (lookup_shard sid m)

abbrev pub is_available : Option MemberRecord → Bool
is_available none = false
is_available (some rec) = is_alive rec.state

-- The first shard of the directory that the membership view does not have as alive.
unfoldable pub first_unavailable : Dict String MemberRecord → List String → Option String
first_unavailable view [] = none
first_unavailable view (sid ∷ sids) =
    let rest = first_unavailable view sids in
    if is_available (lookup sid view) then rest else some sid

-- `_unavailable_peer`; a node without gossip has no view.
unfoldable pub unavailable_peer : Option (Dict String MemberRecord) → ShardMap → Option String
unfolding first_unavailable
unavailable_peer none m = none
unavailable_peer (some view) m = first_unavailable view (all_shards m)
