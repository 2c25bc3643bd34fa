-- ===== src/Routing/Partition.antt =====
-- Each expert id goes to one shard, which holds it.
use model_shard.Prelude.{
  all, ℕ, String, ◌≡◌, refl, sym, ap, ◌∙◌, Bool, true, false, some, List, [], ◌∷◌, ◌++◌, map,
  filter, elem, elem_head, elem-append, any, All, All-weaken, not, ◌&&◌, ◌||◌, ◌==◌, ==_iff, ltb,
  if◌then◌else◌, elem-filter, append_nil, append_one, Dict, lookup, insert, lookup-insert,
  string_eq, nat_eq, arith, inl, inr, Bool-cases,
}
use model_shard.Prelude.Maybe.{some->>=}
use model_shard.Routing.Group.{
  ids_of, put_id, candidates_at, add_candidate, static_candidates, dedupe, Sampler, load_of,
  lighter, sampled, winner_of, combined, group_loaded, group_expert_ids_by_owner_loaded,
}

-- The groups `d` are `start` with each of `ids` added once, in order, to the group of a shard that
-- holds it.
pub record IsPartition (holds : ℕ → String → Bool) (ids : List ℕ) (start d : Dict String (List ℕ))
    : Type 0 where
  pub chosen : List (ℕ × String)
  pub all_ids : map (λ w. w.0) chosen ≡ ids
  pub all_hold : All (λ w. holds w.0 w.1 ≡ true) chosen
  pub groups :
      (owner : String)
      → ids_of owner d ≡ ids_of owner start ++ map (λ w. w.0) (filter (λ w. w.1 == owner) chosen)

ids_of-put_id :
    (owner winner : String) (eid : ℕ) (d : Dict String (List ℕ))
    → ids_of owner (put_id winner eid d)
      ≡ (if winner == owner then ids_of owner d ++ eid ∷ [] else ids_of owner d)
ids_of-put_id owner winner eid d = elim (Bool-cases (winner == owner)) [
  | inl same ↦
      let e : winner ≡ owner = (==_iff winner owner).0 same in
      ground (arith, e, same, lookup-insert winner owner (ids_of winner d ++ eid ∷ []) d)
  | inr other ↦ ground (arith, other, lookup-insert winner owner (ids_of winner d ++ eid ∷ []) d)
]

pub IsPartition-put :
    (holds : ℕ → String → Bool) (winner : String) (eid : ℕ) (ids : List ℕ)
    (start d : Dict String (List ℕ))
    → holds eid winner ≡ true
    → IsPartition holds ids (put_id winner eid start) d
    → IsPartition holds (eid ∷ ids) start d
IsPartition-put holds winner eid ids start d h p = record {
  chosen = (eid, winner) ∷ p.chosen;
  all_ids = ap (λ xs. eid ∷ xs) p.all_ids;
  all_hold = (h, p.all_hold);
  groups = λ owner.
      p.groups owner ∙ rw (ids_of-put_id owner winner eid start) (joined owner (winner == owner));
}
  where
    rest : String → List ℕ
    rest owner = map (λ w. w.0) (filter (λ w. w.1 == owner) p.chosen)

    joined :
        (owner : String) (b : Bool)
        → (if b then ids_of owner start ++ eid ∷ [] else ids_of owner start)
            ++ map (λ w. w.0) (filter (λ w. w.1 == owner) p.chosen)
          ≡ ids_of owner start
            ++ map
                (λ w. w.0)
                (if b
                  then (eid, winner) ∷ filter (λ w. w.1 == owner) p.chosen
                  else filter (λ w. w.1 == owner) p.chosen)
    joined owner true = append_one (ids_of owner start) eid _
    joined owner false = refl

lighter-elem :
    (load : String → ℕ) (a b : String) (xs : List String)
    → elem a xs ≡ true
    → elem b xs ≡ true
    → elem (lighter load a b) xs ≡ true
lighter-elem load a b xs ha hb = elim (Bool-cases (ltb (load b) (load a))) [
  | inl second ↦ rw second hb
  | inr first ↦ rw first ha
]

won-elem :
    (p w : String × ℕ) (cs : List String)
    → some p ≡ some w
    → elem p.0 cs ≡ true
    → elem w.0 cs ≡ true
won-elem p w cs h there =
    let e : p.0 ≡ w.0 = ground (arith, h) in sym (ap (λ x. elem x cs) e) ∙ there

winner_of-elem :
    (r : Sampler) (load : String → ℕ) (cs : List String) (g : ℕ) (w : String × ℕ)
    → winner_of r load cs g ≡ some w
    → elem w.0 cs ≡ true
winner_of-elem r load [] g w h = cc
winner_of-elem r load (a ∷ []) g w h = won-elem (a, g) w (a ∷ []) h (elem_head a [])
winner_of-elem r load (a ∷ b ∷ []) g w h =
    won-elem (lighter load a b, g) w (a ∷ b ∷ []) h
      (lighter-elem load a b (a ∷ b ∷ []) (elem_head a (b ∷ [])) (ground (arith, elem_head b [])))
winner_of-elem r load (a ∷ b ∷ (c ∷ rest)) g w h =
    let pool = a ∷ b ∷ c ∷ rest in
    let drawn = r.sample g pool in
    let (first, second) = r.sample_elem g pool (omega arith) in
    won-elem (sampled load drawn) w pool h (lighter-elem load drawn.0.0 drawn.0.1 pool first second)

elem-dedupe : (a : String) (xs : List String) → elem a (dedupe xs) ≡ true → elem a xs ≡ true
elem-dedupe a [] h = h
elem-dedupe a (x ∷ xs) h =
    let kept = elem-filter (λ y. not (y == x)) a (dedupe xs) in
    elim (Bool-cases (elem a (dedupe xs))) [
      | inl there ↦ ground (arith, elem-dedupe a xs there)
      | inr absent ↦ ground (arith, h, kept, absent)
    ]

candidates_at-insert :
    (eid i : ℕ) (cs : List String) (d : Dict ℕ (List String))
    → candidates_at eid (insert i cs d) ≡ (if i == eid then cs else candidates_at eid d)
candidates_at-insert eid i cs d = ground (arith, lookup-insert i eid cs d)

elem-candidate :
    (o owner : String) (eid i : ℕ) (d : Dict ℕ (List String))
    → elem o (candidates_at eid (insert i (candidates_at i d ++ owner ∷ []) d))
      ≡ (elem o (candidates_at eid d) || (owner == o && i == eid))
elem-candidate o owner eid i d =
    ap (elem o) (candidates_at-insert eid i (candidates_at i d ++ owner ∷ []) d)
    ∙ by_key (i == eid) refl
  where
    by_key :
        (b : Bool)
        → (i == eid) ≡ b
        → elem o (if b then candidates_at i d ++ owner ∷ [] else candidates_at eid d)
          ≡ (elem o (candidates_at eid d) || (owner == o && b))
    by_key true same =
        let e : i ≡ eid = (==_iff i eid).0 same in
        elem-append o (candidates_at i d) (owner ∷ []) ∙ rw e (ground arith)
    by_key false other = ground arith

elem-add_candidate :
    (o owner : String) (eid : ℕ) (ids : List ℕ) (d : Dict ℕ (List String))
    → elem o (candidates_at eid (add_candidate owner ids d))
      ≡ (elem o (candidates_at eid d) || (owner == o && elem eid ids))
elem-add_candidate o owner eid [] d = ground arith
elem-add_candidate o owner eid (i ∷ is) d =
    elem-add_candidate o owner eid is (insert i (candidates_at i d ++ owner ∷ []) d)
    ∙ ground (arith, elem-candidate o owner eid i d)

-- The table `owners` gives the expert to the shard.
abbrev pub is_listed : Dict String (List ℕ) → ℕ → String → Bool
is_listed owners eid o = any (λ e. e.0 == o && elem eid e.1) owners

elem-static_candidates :
    (o : String) (eid : ℕ) (owners : Dict String (List ℕ)) (d : Dict ℕ (List String))
    → elem o (candidates_at eid (static_candidates owners d))
      ≡ (elem o (candidates_at eid d) || is_listed owners eid o)
unfolding static_candidates
elem-static_candidates o eid [] d = ground arith
elem-static_candidates o eid ((owner, ids) ∷ owners) d =
    elem-static_candidates o eid owners (add_candidate owner ids d)
    ∙ ground (arith, elem-add_candidate o owner eid ids d)

group_loaded-IsPartition :
    (r : Sampler) (load : String → ℕ) (candidates : ℕ → List String) (ids : List ℕ) (g : ℕ)
    (start d : Dict String (List ℕ))
    → group_loaded r load candidates ids g start ≡ some d
    → IsPartition (λ eid o. elem o (candidates eid)) ids start d
unfolding group_loaded
group_loaded-IsPartition r load candidates [] g start d h =
    let e : start ≡ d = ground (arith, h) in
    record {
      chosen = [];
      all_ids = refl;
      all_hold = tt;
      groups = λ owner. ap (ids_of owner) (sym e) ∙ sym (append_nil (ids_of owner start));
    }
group_loaded-IsPartition r load candidates (eid ∷ eids) g start d h =
    let (w, won, rest) = some->>= (winner_of r load (candidates eid) g) _ d h in
    IsPartition-put _ w.0 eid eids start d (winner_of-elem r load (candidates eid) g w won)
      (group_loaded-IsPartition r load candidates eids w.1 (put_id w.0 eid start) d rest)

-- The expert is listed for the shard, or gossip says that the shard holds it.
abbrev pub is_held : Dict String (List ℕ) → (ℕ → List String) → ℕ → String → Bool
is_held owners live eid o = is_listed owners eid o || elem o (live eid)

held_weaken :
    (owners : Dict String (List ℕ)) (live : ℕ → List String) (eid : ℕ) (o : String)
    → elem o (combined (static_candidates owners []) live eid) ≡ true
    → is_held owners live eid o ≡ true
unfolding lookup
held_weaken owners live eid o h =
    let static = candidates_at eid (static_candidates owners []) in
    let there = elem-dedupe o (static ++ live eid) h in
    ground (arith, there, elem-append o static (live eid), elem-static_candidates o eid owners [])

dedupe-elem : (a : String) (xs : List String) → elem a xs ≡ true → elem a (dedupe xs) ≡ true
dedupe-elem a [] h = h
dedupe-elem a (x ∷ xs) h = elim (Bool-cases (x == a)) [
  | inl same ↦ ground (arith, same)
  | inr other ↦
      let ih = dedupe-elem a xs (ground (arith, h, other)) in
      ground
        (arith, other, ih, elem-filter (λ y. not (y == x)) a (dedupe xs), ==_iff x a, ==_iff a x)
]

held-elem :
    (owners : Dict String (List ℕ)) (live : ℕ → List String) (eid : ℕ) (o : String)
    → is_held owners live eid o ≡ true
    → elem o (combined (static_candidates owners []) live eid) ≡ true
unfolding lookup
held-elem owners live eid o h =
    let static = candidates_at eid (static_candidates owners []) in
    dedupe-elem o (static ++ live eid)
      (elem-append o static (live eid) ∙ ground (arith, h, elem-static_candidates o eid owners []))

winner_of-returns :
    (r : Sampler) (load : String → ℕ) (cs : List String) (g : ℕ) (a : String)
    → elem a cs ≡ true
    → (w : String × ℕ) × (winner_of r load cs g ≡ some w)
winner_of-returns r load [] g a h = cc
winner_of-returns r load (x ∷ []) g a h = (_, refl)
winner_of-returns r load (x ∷ y ∷ []) g a h = (_, refl)
winner_of-returns r load (x ∷ y ∷ (z ∷ rest)) g a h = (_, refl)

group_loaded-returns :
    (r : Sampler) (load : String → ℕ) (candidates : ℕ → List String) (holder : ℕ → String)
    (ids : List ℕ) (g : ℕ) (start : Dict String (List ℕ))
    → all (λ eid. elem (holder eid) (candidates eid)) ids ≡ true
    → (d : Dict String (List ℕ)) × (group_loaded r load candidates ids g start ≡ some d)
unfolding group_loaded
group_loaded-returns r load candidates holder [] g start h = (start, refl)
group_loaded-returns r load candidates holder (eid ∷ eids) g start h =
    let (w, won) = winner_of-returns r load (candidates eid) g (holder eid) (ground (arith, h)) in
    let (d, ran) =
      group_loaded-returns r load candidates holder eids w.1 (put_id w.0 eid start)
        (ground (arith, h)) in
    (d, rw won ran)

all-held :
    (owners : Dict String (List ℕ)) (live : ℕ → List String) (holder : ℕ → String) (ids : List ℕ)
    → all (λ eid. is_held owners live eid (holder eid)) ids ≡ true
    → all (λ eid. elem (holder eid) (combined (static_candidates owners []) live eid)) ids ≡ true
all-held owners live holder [] h = refl
all-held owners live holder (eid ∷ eids) h = ground (
  arith,
  held-elem owners live eid (holder eid) (ground (arith, h)),
  all-held owners live holder eids (ground (arith, h)),
)

-- Load-aware routing is a partition: when some shard holds each of the top-k experts, by the static table
-- or by gossip, groups are returned without error; each id went, once and in order, to the group of one
-- shard that holds its expert, and no group holds anything else.
pub group_expert_ids_by_owner_loaded-IsPartition :
    (r : Sampler) (top_k_ids : List ℕ) (owners : Dict String (List ℕ)) (peer_loads : Dict String ℕ)
    (self_id : String) (self_load g : ℕ) (live : ℕ → List String) (holder : ℕ → String)
    → all (λ eid. is_held owners live eid (holder eid)) top_k_ids ≡ true
    → (d : Dict String (List ℕ)) × (group_expert_ids_by_owner_loaded r top_k_ids owners peer_loads
          self_id self_load g live
        ≡ some d)
      × IsPartition (is_held owners live) top_k_ids [] d
unfolding group_expert_ids_by_owner_loaded
group_expert_ids_by_owner_loaded-IsPartition r top_k_ids owners peer_loads self_id self_load g live
      holder h =
    let load = load_of self_id self_load peer_loads in
    let candidates = combined (static_candidates owners []) live in
    let (d, ran) =
      group_loaded-returns r load candidates holder top_k_ids g []
        (all-held owners live holder top_k_ids h) in
    let p = group_loaded-IsPartition r load candidates top_k_ids g [] d ran in
    (
      d,
      ran,
      record {
        chosen = p.chosen;
        all_ids = p.all_ids;
        all_hold = All-weaken _ _ p.chosen (λ w ok. held_weaken owners live w.0 w.1 ok) p.all_hold;
        groups = p.groups;
      },
    )
