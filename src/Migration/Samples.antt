-- ===== src/Migration/Samples.antt =====
-- A node "a" that holds the experts 1, 2 and 3 of layer 5, and is asked for more.
use model_shard.Prelude.{
  ℕ, ◌≡◌, ◌==◌, refl, true, false, some, List, [], ◌∷◌, Dict, lookup, string_eq, nat_eq,
}
use model_shard.Migration.Scanner.{
  MigrationPolicy, Collaborators, min_by, first_candidate, select_candidate, victim_of,
}
use model_shard.Migration.Choice.{
  IsWorthPulling, select_candidate-IsWorthPulling, IsEvictable, victim_of-IsEvictable,
}

abbrev policy_for : ℕ → MigrationPolicy
policy_for capacity = record {
  scan_interval = 5000;
  heat_threshold = 50;
  max_experts_per_layer = capacity;
  evict_cooldown = 30000;
  eviction_enabled = true;
}

-- The state is what the node holds; expert 1 is held from the start, expert 2 is colder than expert 3.
abbrev nodes : Collaborators (Dict ℕ (List ℕ)) ℕ
nodes = record {
  report = λ s. (5, 8, 70) ∷ (5, 9, 90) ∷ (5, 2, 95) ∷ [];
  local_heat = λ layer expert s. elim (expert == 2) [ true ↦ 60 | false ↦ 80 ];
  live_experts = λ s. s;
  owner_lookup = λ layer expert s. "a" ∷ "b" ∷ "c" ∷ [];
  loads = λ s. ("b", 300) ∷ ("c", 200) ∷ [];
  pull = λ source layer expert s. some 0;
  attach = λ layer expert tensors s. (s, true);
  announce = λ layer expert s. s;
  bootstrap_held = (5, 1 ∷ []) ∷ [];
  attach_ts = λ layer expert s. 1000;
  evict = λ layer expert s. (s, true);
}

abbrev holds : Dict ℕ (List ℕ)
holds = (5, 1 ∷ 2 ∷ 3 ∷ []) ∷ []

program : Unit {0}
unfolding select_candidate victim_of first_candidate min_by lookup
program = tt

picked : select_candidate "a" (policy_for 4) nodes holds ≡ some (5, 9, "c")
unfolding program
picked = refl

select_candidate-IsWorthPulling_example : IsWorthPulling "a" (policy_for 4) nodes holds 5 9 "c"
select_candidate-IsWorthPulling_example =
    select_candidate-IsWorthPulling "a" (policy_for 4) nodes holds 5 9 "c" picked

doomed : victim_of "a" (policy_for 3) nodes 50000 5 holds ≡ some 2
unfolding program
doomed = refl

victim_of-IsEvictable_example : IsEvictable "a" (policy_for 3) nodes 50000 5 holds 2
victim_of-IsEvictable_example =
    victim_of-IsEvictable "a" (policy_for 3) nodes 50000 5 holds 2 doomed
