-- ===== src/Node/Owned.antt =====
-- An eviction leaves an owner: the guard on the last replica.
use model_shard.Prelude.{
  ℕ, String, ◌≡◌, ◌≤◌, ◌<◌, ◌+◌, true, false, Option, none, some, elem, ◌==◌, lookup, nat_eq,
  string_eq, pair_eq,
}
use model_shard.Runner.Ownership.{existing_ts}
use model_shard.Trackers.Average.{Average}
use model_shard.Node.Ownership.{
  Backend, Clock, DetachError, backend_error, Node, ids_at, owners_of, attach_ts, migration_detach,
}

module _ (a : Average) {Stack Weights : Type 0} (b : Backend Stack Weights) where
  -- A shard other than the node that the node believes to hold the expert.
  pub data HasOtherOwner (l e : ℕ) (self_id : String) (node : Node a b) : Type 0 where
    owned_by :
        (o : String)
        → (o == self_id) ≡ false
        → elem o (owners_of a b l e node) ≡ true
        → HasOtherOwner l e self_id node

  -- The guards that let an eviction through.
  pub record IsAllowed (cooldown l e now : ℕ) (node : Node a b) : Type 0 where
    pub not_bootstrap : elem e (ids_at l node.shard.moe_experts) ≡ false
    pub cooled : attach_ts a b l e node + cooldown ≤ now
    pub other_owner : HasOtherOwner l e node.shard.shard_id node

  -- The expert is gone from the node, with the time of its attachment, and every other expert is where it
  -- was; the node's own entry is a removal, if it was older; and the backend has let go of the expert.
  pub record IsReleased (l e : ℕ) (clock : Clock) (node node' : Node a b) : Type 0 where
    pub not_live : elem e (ids_at l node'.live_experts) ≡ false
    pub no_attach_ts : lookup (l, e) node'.live_experts_attach_ts ≡ none
    pub others_stay :
        (k x : ℕ)
        → ¬ ((k ≡ l) × (x ≡ e))
        → elem x (ids_at k node'.live_experts) ≡ elem x (ids_at k node.live_experts)
    pub withdrawn :
        existing_ts (lookup (node.shard.shard_id, (l, e)) node.ownership_view_internal)
          < clock.second
        → lookup (node.shard.shard_id, (l, e)) node'.ownership_view_internal
          ≡ some (1, clock.second)
    pub backend_ran : b.detach_expert l e node.stack ≡ (node'.stack, true)

  -- What a call of `migration_detach` comes to.
  pub data DetachOutcome (cooldown l e : ℕ) (clock : Clock) (node : Node a b) : Type 0 where
    refused :
        (error : DetachError)
        → migration_detach a b cooldown l e clock node ≡ (node, some error)
        → DetachOutcome cooldown l e clock node
    failed :
        (stack : Stack)
        → IsAllowed cooldown l e clock.first node
        → migration_detach a b cooldown l e clock node
          ≡ (record node { stack = stack }, some backend_error)
        → DetachOutcome cooldown l e clock node
    evicted :
        (node' : Node a b)
        → IsAllowed cooldown l e clock.first node
        → migration_detach a b cooldown l e clock node ≡ (node', none)
        → IsReleased l e clock node node'
        → HasOtherOwner l e node.shard.shard_id node'
        → DetachOutcome cooldown l e clock node
