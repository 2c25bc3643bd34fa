-- ===== src/Node/Scanning.antt =====
-- The scanner of migration.py as `Node.__init__` builds it: its collaborators are the node's own methods.
use model_shard.Prelude.{ℕ, String, Bool, true, false, Option, none, some}
use model_shard.Migration.Scanner.{MigrationPolicy, Collaborators, scan_once}
use model_shard.Runner.Loop.{announce_add}
use model_shard.Trackers.Average.{Average}
use model_shard.Trackers.Heat.{report, local_heat}
use model_shard.Node.Ownership.{
  Backend, Clock, DetachError, Node, as_sets, owners_of, loads_snapshot, attach_ts,
  migration_attach, migration_detach, announced,
}

abbrev pub returned : Option DetachError → Bool
returned none = true
returned (some error) = false

-- The other peers, by what a pull from them gives; and the clock of each call.
module _ (a : Average) {Stack Weights : Type 0} (b : Backend Stack Weights)
    (pull : String → ℕ → ℕ → Option Weights) (attach_clock evict_clock : ℕ → ℕ → Clock)
    (cooldown : ℕ) (node : Node a b) where
  abbrev pub collaborators : Collaborators (Node a b) Weights
  collaborators = record {
    report = λ n. report a n.heat_tracker;
    local_heat = λ layer expert n. local_heat a layer expert n.heat_tracker;
    live_experts = λ n. n.live_experts;
    owner_lookup = λ layer expert n. owners_of a b layer expert n;
    loads = λ n. loads_snapshot a b n;
    pull = λ source layer expert n. pull source layer expert;
    attach = λ layer expert tensors n.
        migration_attach a b layer expert tensors (attach_clock layer expert) n;
    announce = λ layer expert n. record n {
      membership =
          announced (announce_add layer expert) (attach_clock layer expert).third n.membership;
    };
    bootstrap_held = as_sets node.shard.moe_experts;
    attach_ts = λ layer expert n. attach_ts a b layer expert n;
    evict = λ layer expert n.
        let after = migration_detach a b cooldown layer expert (evict_clock layer expert) n in
        (after.0, returned after.1);
  }

  -- One scan of the node whose collaborators these are.
  abbrev pub scan : MigrationPolicy → Bool → ℕ → Node a b → Node a b
  scan policy in_flight now n = scan_once node.shard.shard_id policy collaborators in_flight now n
