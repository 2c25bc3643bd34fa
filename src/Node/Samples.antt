-- ===== src/Node/Samples.antt =====
-- Two shards of 20 layers: "a" runs the first ten and "b" the rest; layer 5 is split between them, and
-- "a" has pulled expert 2, which "b" owns as well.
use model_shard.Prelude.{
  ℕ, ◌≡◌, refl, true, false, none, some, List, [], ◌∷◌, lookup, insert, nat_eq,
}
use model_shard.Migration.Scanner.{MigrationPolicy}
use model_shard.Trackers.Samples.{hundredths, warm}
use model_shard.Node.Directory.{ShardSpec, ShardMap}
use model_shard.Node.Ownership.{
  Backend, Clock, Node, new_node, owners_of, migration_attach, migration_detach,
}
use model_shard.Runner.Ownership.{ownership_view_put}
use model_shard.Node.Scanning.{scan}
use model_shard.Node.Held.{HoldsBootstrap, new_node-HoldsBootstrap, scan-HoldsBootstrap}

abbrev pub spec_a : ShardSpec
spec_a = record {
  shard_id = "a";
  address = record { host = "localhost"; port = 5001 };
  start_layer = 0;
  end_layer = 10;
  moe_experts = (5, 0 ∷ 1 ∷ []) ∷ [];
}

abbrev pub spec_b : ShardSpec
spec_b = record {
  shard_id = "b";
  address = record { host = "localhost"; port = 5002 };
  start_layer = 10;
  end_layer = 20;
  moe_experts = (5, 2 ∷ 3 ∷ []) ∷ [];
}

abbrev pub both_shards : ShardMap
both_shards = record { entries = ("a", spec_a) ∷ ("b", spec_b) ∷ []; model_id = "gemma" }

-- A stack that is the list of the experts in it.
abbrev pub listed : Backend (List (ℕ × ℕ)) (Unit {0})
listed = record {
  attach_expert = λ layer expert w stack. ((layer, expert) ∷ stack, true);
  detach_expert = λ layer expert stack. (stack, true);
}

abbrev pub clock_at : ℕ → Clock
clock_at now = record { first = now; second = now; third = now }

unfoldable fresh : Node hundredths listed
unfolding new_node
fresh = new_node hundredths listed spec_a both_shards warm none []

unfoldable pulled : Node hundredths listed
unfolding migration_attach fresh
pulled = (migration_attach hundredths listed 5 2 tt (clock_at 1000) fresh).0

abbrev policy : MigrationPolicy
policy = record {
  scan_interval = 10000;
  heat_threshold = 50;
  max_experts_per_layer = 2;
  evict_cooldown = 30000;
  eviction_enabled = true;
}

fresh-HoldsBootstrap : HoldsBootstrap hundredths listed fresh
unfolding fresh
fresh-HoldsBootstrap = new_node-HoldsBootstrap hundredths listed spec_a both_shards warm none []

scan-HoldsBootstrap_example : HoldsBootstrap hundredths listed (
    scan hundredths listed
      (λ source layer expert. some tt)
      (λ l e. clock_at 50000)
      (λ l e. clock_at 50001)
      30000
      fresh
      policy
      false
      50000
      fresh)
scan-HoldsBootstrap_example =
    scan-HoldsBootstrap hundredths listed (λ source layer expert. some tt) (λ l e. clock_at 50000)
      (λ l e. clock_at 50001) 30000 policy false 50000 fresh fresh-HoldsBootstrap

-- Expert 2 is evicted then.
evicted_2 : (migration_detach hundredths listed 30000 5 2 (clock_at 50000) pulled).1 ≡ none
unfolding migration_detach pulled lookup insert owners_of ownership_view_put
evicted_2 = refl
