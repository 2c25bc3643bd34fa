-- ===== src/Routing/Group.antt =====
-- `group_expert_ids_by_owner` and `group_expert_ids_by_owner_loaded`; none is a KeyError. A set is the
-- list of its elements in the order in which Python goes through it.
use model_shard.Prelude.{
  ℕ, String, ◌≡◌, true, Option, none, some, List, [], ◌∷◌, ◌++◌, filter, elem, not, ◌==◌, ltb,
  if◌then◌else◌, ◌≤◌, length, Dict, lookup, insert, string_eq, nat_eq,
}
use model_shard.Prelude.Maybe.{◌>>=◌}

abbrev pub list_at {ℓ} : {A : Type ℓ} → Option (List A) → List A
list_at none = []
list_at (some xs) = xs

-- d.get(k, [])
abbrev pub ids_of : String → Dict String (List ℕ) → List ℕ
ids_of owner d = list_at (lookup owner d)

-- by_owner.setdefault(owner, []).append(eid)
abbrev pub put_id : String → ℕ → Dict String (List ℕ) → Dict String (List ℕ)
put_id owner eid d = insert owner (ids_of owner d ++ eid ∷ []) d

abbrev pub assign_all : String → List ℕ → Dict ℕ String → Dict ℕ String
assign_all owner [] d = d
assign_all owner (i ∷ is) d = assign_all owner is (insert i owner d)

-- The later owner of an id replaces the earlier one.
unfoldable pub id_to_owner : Dict String (List ℕ) → Dict ℕ String → Dict ℕ String
id_to_owner [] d = d
id_to_owner ((owner, ids) ∷ owners) d = id_to_owner owners (assign_all owner ids d)

unfoldable pub group_by :
    Dict ℕ String → List ℕ → Dict String (List ℕ) → Option (Dict String (List ℕ))
group_by owner_of [] by_owner = some by_owner
group_by owner_of (eid ∷ eids) by_owner = do
  owner ← lookup eid owner_of
  group_by owner_of eids (put_id owner eid by_owner)

unfoldable pub group_expert_ids_by_owner :
    List ℕ → Dict String (List ℕ) → Option (Dict String (List ℕ))
unfolding id_to_owner group_by
group_expert_ids_by_owner top_k_ids owners = group_by (id_to_owner owners []) top_k_ids []

-- static_candidates_by_id.setdefault(i, []).append(owner)
abbrev pub candidates_at : ℕ → Dict ℕ (List String) → List String
candidates_at eid d = list_at (lookup eid d)

abbrev pub add_candidate : String → List ℕ → Dict ℕ (List String) → Dict ℕ (List String)
add_candidate owner [] d = d
add_candidate owner (i ∷ is) d =
    add_candidate owner is (insert i (candidates_at i d ++ owner ∷ []) d)

unfoldable pub static_candidates :
    Dict String (List ℕ) → Dict ℕ (List String) → Dict ℕ (List String)
static_candidates [] d = d
static_candidates ((owner, ids) ∷ owners) d = static_candidates owners (add_candidate owner ids d)

-- list(dict.fromkeys(xs)): each element at its first place.
abbrev pub dedupe : List String → List String
dedupe [] = []
dedupe (x ∷ xs) = x ∷ filter (λ y. not (y == x)) (dedupe xs)

-- rng.sample(xs, 2), with the generator's state: two elements of a population of two or more.
pub record Sampler : Type 0 where
  pub sample : ℕ → List String → (String × String) × ℕ
  pub sample_elem :
      (g : ℕ) (xs : List String)
      → 2 ≤ length xs
      → (elem (sample g xs).0.0 xs ≡ true) × (elem (sample g xs).0.1 xs ≡ true)

abbrev pub or_most : Option ℕ → ℕ
or_most none = 2147483647
or_most (some n) = n

abbrev pub load_of : String → ℕ → Dict String ℕ → String → ℕ
load_of self_id self_load peer_loads sid =
    if sid == self_id then self_load else or_most (lookup sid peer_loads)

-- min(pool, key=load_of): the first of the two unless the second has a lower load.
abbrev pub lighter : (String → ℕ) → String → String → String
lighter load a b = if ltb (load b) (load a) then b else a

abbrev pub sampled : (String → ℕ) → (String × String) × ℕ → String × ℕ
sampled load ((a, b), g) = (lighter load a b, g)

-- The winner among the candidates, none when there is no candidate.
abbrev pub winner_of : Sampler → (String → ℕ) → List String → ℕ → Option (String × ℕ)
winner_of r load [] g = none
winner_of r load (a ∷ []) g = some (a, g)
winner_of r load (a ∷ b ∷ []) g = some (lighter load a b, g)
winner_of r load (a ∷ b ∷ (c ∷ rest)) g = some (sampled load (r.sample g (a ∷ b ∷ c ∷ rest)))

-- static first, then what gossip adds
abbrev pub combined : Dict ℕ (List String) → (ℕ → List String) → ℕ → List String
combined static live eid = dedupe (candidates_at eid static ++ live eid)

unfoldable pub group_loaded :
    Sampler
    → (String → ℕ)
    → (ℕ → List String)
    → List ℕ
    → ℕ
    → Dict String (List ℕ)
    → Option (Dict String (List ℕ))
group_loaded r load candidates [] g by_owner = some by_owner
group_loaded r load candidates (eid ∷ eids) g by_owner = do
  winner ← winner_of r load (candidates eid) g
  group_loaded r load candidates eids winner.1 (put_id winner.0 eid by_owner)

-- `live` gives no owner where the source is given no provider.
unfoldable pub group_expert_ids_by_owner_loaded :
    Sampler
    → List ℕ
    → Dict String (List ℕ)
    → Dict String ℕ
    → String
    → ℕ
    → ℕ
    → (ℕ → List String)
    → Option (Dict String (List ℕ))
unfolding static_candidates group_loaded
group_expert_ids_by_owner_loaded r top_k_ids owners peer_loads self_id self_load g live =
    group_loaded r (load_of self_id self_load peer_loads)
      (combined (static_candidates owners []) live) top_k_ids g []
