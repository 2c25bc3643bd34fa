-- ===== src/Routing/Plain.antt =====
-- The plain grouping, by the static table alone.
use model_shard.Prelude.{
  all, ℕ, String, ◌≡◌, refl, sym, ◌∙◌, Bool, true, false, Option, none, some, List, [], ◌∷◌, elem,
  any, ◌&&◌, ◌||◌, ◌==◌, ==_iff, if◌then◌else◌, append_nil, Dict, lookup, insert, lookup-insert,
  is_some, string_eq, nat_eq, arith,
}
use model_shard.Routing.Group.{
  ids_of, put_id, assign_all, id_to_owner, group_by, group_expert_ids_by_owner,
}
use model_shard.Routing.Partition.{IsPartition, IsPartition-put, is_listed}

abbrev names : Option String → String → Bool
names none o = false
names (some x) o = x == o

names-insert :
    (eid i : ℕ) (owner o : String) (d : Dict ℕ String)
    → names (lookup eid (insert i owner d)) o
      ≡ (if i == eid then owner == o else names (lookup eid d) o)
names-insert eid i owner o d = ground (arith, lookup-insert i eid owner d)

names-assign_all :
    (eid : ℕ) (owner o : String) (ids : List ℕ) (d : Dict ℕ String)
    → names (lookup eid (assign_all owner ids d)) o ≡ true
    → ((owner == o && elem eid ids) || names (lookup eid d) o) ≡ true
names-assign_all eid owner o [] d h = ground (arith, h)
names-assign_all eid owner o (i ∷ is) d h =
    ground
      (arith, names-assign_all eid owner o is (insert i owner d) h, names-insert eid i owner o d)

names-id_to_owner :
    (eid : ℕ) (o : String) (owners : Dict String (List ℕ)) (d : Dict ℕ String)
    → names (lookup eid (id_to_owner owners d)) o ≡ true
    → (is_listed owners eid o || names (lookup eid d) o) ≡ true
unfolding id_to_owner
names-id_to_owner eid o [] d h = ground (arith, h)
names-id_to_owner eid o ((owner, ids) ∷ owners) d h = ground (
  arith,
  names-id_to_owner eid o owners (assign_all owner ids d) h,
  names-assign_all eid owner o ids d,
)

-- Some shard holds the expert.
abbrev pub has_owner : Dict String (List ℕ) → ℕ → Bool
has_owner owners eid = any (λ e. elem eid e.1) owners

known-assign_all :
    (eid : ℕ) (owner : String) (ids : List ℕ) (d : Dict ℕ String)
    → is_some (lookup eid (assign_all owner ids d)) ≡ (is_some (lookup eid d) || elem eid ids)
known-assign_all eid owner [] d = ground arith
known-assign_all eid owner (i ∷ is) d =
    known-assign_all eid owner is (insert i owner d) ∙ ground (arith, lookup-insert i eid owner d)

known-id_to_owner :
    (eid : ℕ) (owners : Dict String (List ℕ)) (d : Dict ℕ String)
    → is_some (lookup eid (id_to_owner owners d)) ≡ (is_some (lookup eid d) || has_owner owners eid)
unfolding id_to_owner
known-id_to_owner eid [] d = ground arith
known-id_to_owner eid ((owner, ids) ∷ owners) d =
    known-id_to_owner eid owners (assign_all owner ids d)
    ∙ ground (arith, known-assign_all eid owner ids d)

found : (o : Option String) → is_some o ≡ true → (x : String) × (o ≡ some x)
found none h = cc
found (some x) h = (x, refl)

-- What the table gives is held; an id that it knows is grouped.
group_by-IsPartition :
    (holds : ℕ → String → Bool) (table : Dict ℕ String) (ids : List ℕ)
    (start : Dict String (List ℕ))
    → ((eid : ℕ) (o : String) → lookup eid table ≡ some o → holds eid o ≡ true)
    → all (λ eid. is_some (lookup eid table)) ids ≡ true
    → (d : Dict String (List ℕ)) × (group_by table ids start ≡ some d)
      × IsPartition holds ids start d
unfolding group_by
group_by-IsPartition holds table [] start sound known = (
  start,
  refl,
  record {
    chosen = [];
    all_ids = refl;
    all_hold = tt;
    groups = λ owner. sym (append_nil (ids_of owner start));
  },
)
group_by-IsPartition holds table (eid ∷ eids) start sound known =
    let (o, at) = found (lookup eid table) (ground (arith, known)) in
    let (d, ran, p) =
      group_by-IsPartition holds table eids (put_id o eid start) sound (ground (arith, known)) in
    (d, rw at ran, IsPartition-put holds o eid eids start d (sound eid o at) p)

all-known :
    (owners : Dict String (List ℕ)) (ids : List ℕ)
    → all (has_owner owners) ids ≡ true
    → all (λ eid. is_some (lookup eid (id_to_owner owners []))) ids ≡ true
unfolding lookup
all-known owners [] h = refl
all-known owners (eid ∷ eids) h =
    ground (arith, h, known-id_to_owner eid owners [], all-known owners eids (ground (arith, h)))

listed :
    (owners : Dict String (List ℕ)) (eid : ℕ) (o : String)
    → lookup eid (id_to_owner owners []) ≡ some o
    → is_listed owners eid o ≡ true
unfolding lookup
listed owners eid o h =
    let there : names (lookup eid (id_to_owner owners [])) o ≡ true = rw h ((==_iff o o).1 refl) in
    ground (arith, names-id_to_owner eid o owners [] there)

-- Plain routing is a partition: when the table lists some shard for each of the top-k ids, groups are
-- returned without error; each id went, once and in order, to the group of one shard that the table lists
-- for it, and no group holds anything else.
pub group_expert_ids_by_owner-IsPartition :
    (top_k_ids : List ℕ) (owners : Dict String (List ℕ))
    → all (has_owner owners) top_k_ids ≡ true
    → (d : Dict String (List ℕ)) × (group_expert_ids_by_owner top_k_ids owners ≡ some d)
      × IsPartition (is_listed owners) top_k_ids [] d
unfolding group_expert_ids_by_owner
group_expert_ids_by_owner-IsPartition top_k_ids owners h =
    group_by-IsPartition (is_listed owners) (id_to_owner owners []) top_k_ids [] (listed owners)
      (all-known owners top_k_ids h)
