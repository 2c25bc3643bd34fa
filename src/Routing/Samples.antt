-- ===== src/Routing/Samples.antt =====
-- Three shards, two of which hold expert 4.
use model_shard.Prelude.{
  ℕ, ◌==◌, false, String, ◌≡◌, ◌≤◌, refl, true, some, List, [], ◌∷◌, Dict, lookup, insert,
  string_eq, nat_eq, elem, elem_head, length, arith,
}
use model_shard.Routing.Plain.{group_expert_ids_by_owner-IsPartition}
use model_shard.Routing.Group.{
  Sampler, static_candidates, group_loaded, group_expert_ids_by_owner_loaded,
  group_expert_ids_by_owner,
}
use model_shard.Routing.Partition.{
  is_listed, is_held, IsPartition, group_expert_ids_by_owner_loaded-IsPartition,
}

abbrev first_two : ℕ → List String → (String × String) × ℕ
first_two g [] = (("", ""), g)
first_two g (a ∷ []) = ((a, a), g)
first_two g (a ∷ (b ∷ rest)) = ((a, b), g)

pub first_two-elem :
    (g : ℕ) (xs : List String)
    → 2 ≤ length xs
    → (elem (first_two g xs).0.0 xs ≡ true) × (elem (first_two g xs).0.1 xs ≡ true)
first_two-elem g [] h = absurd (omega (arith, h))
first_two-elem g (a ∷ []) h = absurd (omega (arith, h))
first_two-elem g (a ∷ (b ∷ rest)) h = (elem_head a (b ∷ rest), ground (arith, elem_head b rest))

-- The sample is the first two of the population.
abbrev pub in_front : Sampler
in_front = record { sample = first_two; sample_elem = first_two-elem }

abbrev owners : Dict String (List ℕ)
owners = ("a", 1 ∷ 4 ∷ []) ∷ ("b", 4 ∷ 5 ∷ []) ∷ ("c", 5 ∷ []) ∷ []

-- Gossip has it that "c" holds expert 4 as well.
abbrev live : ℕ → List String
live eid = elim (eid == 4) [ true ↦ "c" ∷ [] | false ↦ [] ]

abbrev groups : Dict String (List ℕ)
groups = ("b", 4 ∷ 5 ∷ []) ∷ ("a", 1 ∷ []) ∷ []

program : Unit {0}
unfolding group_expert_ids_by_owner_loaded static_candidates group_loaded lookup insert
program = tt

grouped :
    group_expert_ids_by_owner_loaded in_front (4 ∷ 1 ∷ 5 ∷ []) owners (("b", 10) ∷ []) "a" 20 0 live
    ≡ some groups
unfolding program
grouped = refl

-- A shard that holds the expert.
abbrev holder : ℕ → String
holder eid = elim (eid == 1) [ true ↦ "a" | false ↦ "b" ]

group_expert_ids_by_owner_loaded-IsPartition_example :
    (d : Dict String (List ℕ)) × (group_expert_ids_by_owner_loaded in_front
        (4 ∷ 1 ∷ 5 ∷ [])
        owners
        (("b", 10) ∷ [])
        "a"
        20
        0
        live
      ≡ some d)
    × IsPartition (is_held owners live) (4 ∷ 1 ∷ 5 ∷ []) [] d
group_expert_ids_by_owner_loaded-IsPartition_example =
    group_expert_ids_by_owner_loaded-IsPartition in_front (4 ∷ 1 ∷ 5 ∷ []) owners (("b", 10) ∷ [])
      "a" 20 0 live holder refl

group_expert_ids_by_owner-IsPartition_example :
    (d : Dict String (List ℕ)) × (group_expert_ids_by_owner (4 ∷ 1 ∷ 5 ∷ []) owners ≡ some d)
    × IsPartition (is_listed owners) (4 ∷ 1 ∷ 5 ∷ []) [] d
group_expert_ids_by_owner-IsPartition_example =
    group_expert_ids_by_owner-IsPartition (4 ∷ 1 ∷ 5 ∷ []) owners refl
