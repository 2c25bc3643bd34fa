-- ===== src/Node/Ownership.antt =====
-- Which experts a node holds, and who it believes holds which: the tables of `Node`, `owners_of`, and
-- `migration_attach` and `migration_detach`. A call of the backend is a parameter on the state of its
-- weights, and gives whether it returned.
use model_shard.Prelude.{
  ℕ, ◌+◌, String, Bool, true, false, Option, none, some, List, [], ◌∷◌, ◌++◌, map, filter, elem,
  not, ◌&&◌, ◌==◌, ltb, nat_equals, if◌then◌else◌, Dict, lookup, insert, erase, string_eq, nat_eq,
  pair_eq,
}
use model_shard.Membership.Records.{LoadReportRecord}
use model_shard.Runner.Ownership.{
  OwnershipKey, OwnershipView, ownership_view_put, ownership_delta, ownership_view,
}
use model_shard.Runner.Loop.{MembershipRunner, announce_add, announce_remove}
use model_shard.Trackers.Average.{Average}
use model_shard.Trackers.Heat.{HeatTracker, reset}
use model_shard.Node.Directory.{ShardSpec, ShardMap}

-- A set, as the list of its elements.
abbrev pub add_elem : ℕ → List ℕ → List ℕ
add_elem e xs = if elem e xs then xs else xs ++ e ∷ []

unfoldable pub to_set : List ℕ → List ℕ → List ℕ
to_set [] set = set
to_set (e ∷ es) set = to_set es (add_elem e set)

abbrev pub discard : ℕ → List ℕ → List ℕ
discard e xs = filter (λ x. not (x == e)) xs

abbrev pub or_empty : Option (List ℕ) → List ℕ
or_empty none = []
or_empty (some xs) = xs

-- d.get(layer, set())
abbrev pub ids_at : ℕ → Dict ℕ (List ℕ) → List ℕ
ids_at layer d = or_empty (lookup layer d)

-- {layer: set(ids) for layer, ids in moe_experts.items()}
abbrev pub as_sets : Dict ℕ (List ℕ) → Dict ℕ (List ℕ)
as_sets [] = []
as_sets ((layer, ids) ∷ d) = (layer, to_set ids []) ∷ as_sets d

-- The loops of `__init__` that enter what the directory says, at the time 0.
unfoldable pub seed_ids : String → ℕ → List ℕ → OwnershipView → OwnershipView
seed_ids sid layer [] view = view
seed_ids sid layer (e ∷ es) view = seed_ids sid layer es (insert (sid, (layer, e)) (0, 0) view)

unfoldable pub seed_layers : String → Dict ℕ (List ℕ) → OwnershipView → OwnershipView
unfolding seed_ids
seed_layers sid [] view = view
seed_layers sid ((layer, ids) ∷ d) view = seed_layers sid d (seed_ids sid layer ids view)

unfoldable pub seed_shards : Dict String ShardSpec → OwnershipView → OwnershipView
unfolding seed_layers
seed_shards [] view = view
seed_shards ((sid, spec) ∷ entries) view =
    seed_shards entries (seed_layers sid spec.moe_experts view)

-- `_ownership_seen`: the keys whose latest action is ADD.
abbrev pub ownership_seen : OwnershipView → List OwnershipKey
ownership_seen view = ownership_view view

-- `owners_of` on the view.
abbrev pub owns : ℕ → ℕ → OwnershipKey × (ℕ × ℕ) → Bool
owns layer expert ((sid, (l, e)), (action, ts)) =
    nat_equals layer l && nat_equals expert e && nat_equals action 0

unfoldable pub owners_in : ℕ → ℕ → OwnershipView → List String
owners_in layer expert view = map (λ x. x.0.0) (filter (owns layer expert) view)

-- attach_expert and detach_expert on the compact stack of the backend: what they leave, and whether they
-- returned.
pub record Backend (Stack Weights : Type 0) : Type 0 where
  pub attach_expert : ℕ → ℕ → Weights → Stack → Stack × Bool
  pub detach_expert : ℕ → ℕ → Stack → Stack × Bool

-- Why `migration_detach` raises.
pub data DetachError : Type 0 where
  bootstrap_held cooling_down last_replica backend_error : DetachError

-- The guard on the owners that remain.
abbrev pub check_replicas : List String → Option DetachError
check_replicas [] = some last_replica
check_replicas (o ∷ os) = none

-- The three readings of the clock in one call.
pub record Clock : Type 0 where
  pub first : ℕ
  pub second : ℕ
  pub third : ℕ

abbrev pub announced :
    (ℕ → MembershipRunner → MembershipRunner)
    → ℕ
    → Option MembershipRunner
    → Option MembershipRunner
announced announce now none = none
announced announce now (some runner) = some (announce now runner)

abbrev pub or_zero_ts : Option ℕ → ℕ
or_zero_ts none = 0
or_zero_ts (some ts) = ts

-- self._live_experts.get(layer, set()).discard(expert): nothing changes for a layer that is not there.
abbrev pub drop_at : ℕ → ℕ → Option (List ℕ) → Dict ℕ (List ℕ) → Dict ℕ (List ℕ)
drop_at layer expert none d = d
drop_at layer expert (some ids) d = insert layer (discard expert ids) d

-- The queue depths of the peers' reports.
abbrev pub queue_depths : Dict String LoadReportRecord → Dict String ℕ
queue_depths [] = []
queue_depths ((sid, lr) ∷ loads) = (sid, lr.queue_depth_ema) ∷ queue_depths loads

abbrev pub loads_of : Option MembershipRunner → Dict String ℕ
loads_of none = []
loads_of (some runner) = queue_depths runner.peer_loads

module _ (a : Average) {Stack Weights : Type 0} (b : Backend Stack Weights) where
  pub record Node : Type 0 where
    pub shard : ShardSpec
    pub shard_map : ShardMap
    pub live_experts : Dict ℕ (List ℕ)
    pub live_experts_attach_ts : Dict (ℕ × ℕ) ℕ
    pub ownership_view_internal : OwnershipView
    pub heat_tracker : HeatTracker a
    pub membership : Option MembershipRunner
    pub stack : Stack

  -- What `__init__` makes of these tables.
  unfoldable pub new_node :
      ShardSpec → ShardMap → HeatTracker a → Option MembershipRunner → Stack → Node
  unfolding seed_shards
  new_node shard shard_map heat_tracker membership stack = record {
    shard = shard;
    shard_map = shard_map;
    live_experts = as_sets shard.moe_experts;
    live_experts_attach_ts = [];
    ownership_view_internal = seed_shards shard_map.entries [];
    heat_tracker = heat_tracker;
    membership = membership;
    stack = stack;
  }

  unfoldable pub owners_of : ℕ → ℕ → Node → List String
  unfolding owners_in
  owners_of layer expert node = owners_in layer expert node.ownership_view_internal

  -- `_on_gossip_ownership_delta`, and the node's own writes.
  abbrev pub put_ownership : String → ℕ → ℕ → ℕ → ℕ → Node → Node
  put_ownership sid layer expert action ts node = record node {
    ownership_view_internal =
        ownership_view_put (ownership_delta sid layer expert action ts)
          node.ownership_view_internal;
  }

  abbrev pub hold : ℕ → ℕ → ℕ → Node → Node
  hold layer expert now node = record node {
    live_experts =
        insert layer (add_elem expert (ids_at layer node.live_experts)) node.live_experts;
    live_experts_attach_ts = insert (layer, expert) now node.live_experts_attach_ts;
  }

  -- The rest of `migration_attach`, once the backend has the weights.
  abbrev pub attached : ℕ → ℕ → Clock → Node → Node
  attached layer expert clock node =
      let node' =
        put_ownership node.shard.shard_id layer expert 0 clock.second
          (hold layer expert clock.first node) in
      record node' {
        membership = announced (announce_add layer expert) clock.third node.membership;
      }

  abbrev pub after_attach : ℕ → ℕ → Clock → Node → Stack × Bool → Node × Bool
  after_attach layer expert clock node (stack, true) =
      (attached layer expert clock (record node { stack = stack }), true)
  after_attach layer expert clock node (stack, false) = (record node { stack = stack }, false)

  -- The node afterwards, and whether the call returned.
  unfoldable pub migration_attach : ℕ → ℕ → Weights → Clock → Node → Node × Bool
  migration_attach layer expert tensors clock node =
      after_attach layer expert clock node (b.attach_expert layer expert tensors node.stack)

  -- The timestamp of the attachment, 0 where there was none.
  abbrev pub attach_ts : ℕ → ℕ → Node → ℕ
  attach_ts layer expert node = or_zero_ts (lookup (layer, expert) node.live_experts_attach_ts)

  abbrev pub other_owners : ℕ → ℕ → Node → List String
  other_owners layer expert node =
      filter (λ o. not (o == node.shard.shard_id)) (owners_of layer expert node)

  abbrev pub release : ℕ → ℕ → Node → Node
  release layer expert node = record node {
    live_experts = drop_at layer expert (lookup layer node.live_experts) node.live_experts;
    live_experts_attach_ts = erase (layer, expert) node.live_experts_attach_ts;
    heat_tracker = reset a layer expert node.heat_tracker;
  }

  abbrev pub detached : ℕ → ℕ → Clock → Node → Node
  detached layer expert clock node =
      let node' =
        put_ownership node.shard.shard_id layer expert 1 clock.second (release layer expert node) in
      record node' {
        membership = announced (announce_remove layer expert) clock.third node.membership;
      }

  -- What the guards find wrong; `now - ts < cooldown` holds too where the clock has gone back.
  abbrev pub refusal : ℕ → ℕ → ℕ → ℕ → Node → Option DetachError
  refusal cooldown layer expert now node =
      if elem expert (ids_at layer node.shard.moe_experts)
      then some bootstrap_held
      else if ltb now (attach_ts layer expert node + cooldown)
      then some cooling_down
      else check_replicas (other_owners layer expert node)

  abbrev pub after_detach : ℕ → ℕ → Clock → Node → Stack × Bool → Node × Option DetachError
  after_detach layer expert clock node (stack, true) =
      (detached layer expert clock (record node { stack = stack }), none)
  after_detach layer expert clock node (stack, false) =
      (record node { stack = stack }, some backend_error)

  abbrev pub detach_unless : Option DetachError → ℕ → ℕ → Clock → Node → Node × Option DetachError
  detach_unless (some error) layer expert clock node = (node, some error)
  detach_unless none layer expert clock node =
      after_detach layer expert clock node (b.detach_expert layer expert node.stack)

  -- The node afterwards, and the error that is raised.
  unfoldable pub migration_detach : ℕ → ℕ → ℕ → Clock → Node → Node × Option DetachError
  migration_detach cooldown layer expert clock node =
      detach_unless (refusal cooldown layer expert clock.first node) layer expert clock node

  -- `_loads_snapshot`
  abbrev pub loads_snapshot : Node → Dict String ℕ
  loads_snapshot node = loads_of node.membership
