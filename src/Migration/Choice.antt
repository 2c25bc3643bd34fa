-- ===== src/Migration/Choice.antt =====
-- What the scanner picks, to pull and to evict.
use model_shard.Prelude.{
  elem-filter, ℕ, ◌+◌, ◌≤◌, ◌<◌, String, ◌≡◌, refl, sym, ap, ◌∙◌, true, false, none, some, List, [],
  ◌∷◌, elem, filter, not, ◌&&◌, ◌==◌, ltb, lookup, length, string_eq, nat_eq, arith, inl, inr,
  Bool-cases, Option-cases,
}
use model_shard.Migration.Scanner.{
  MigrationPolicy, Collaborators, hottest_first, min_by, or_empty, held_at, other_owners, load_of,
  is_wanted, least_loaded, source_for, first_candidate, select_candidate, is_eligible, coldest,
  victim_of,
}
use model_shard.Migration.Minimum.{elem-min_by, min_by-le}

module _ {S W : Type 0} (self_id : String) (policy : MigrationPolicy) (c : Collaborators S W) where
  -- Worth a pull: wanted, and held by another node; `source` is such a node, of the least load.
  pub record IsWorthPulling (s : S) (layer expert : ℕ) (source : String) : Type 0 where
    pub not_held : elem expert (held_at self_id policy c layer s) ≡ false
    pub room : length (held_at self_id policy c layer s) < policy.max_experts_per_layer
    pub hot : policy.heat_threshold ≤ c.local_heat layer expert s
    pub owns : elem source (c.owner_lookup layer expert s) ≡ true
    pub not_self : (source == self_id) ≡ false
    pub least :
        (owner : String)
        → elem owner (c.owner_lookup layer expert s) ≡ true
        → (owner == self_id) ≡ false
        → load_of self_id policy c s source ≤ load_of self_id policy c s owner

  least_loaded-IsWorthPulling :
      (s : S) (layer expert : ℕ) (source : String) (owners : List String)
      → is_wanted self_id policy c layer expert s ≡ true
      → owners ≡ other_owners self_id policy c layer expert s
      → least_loaded self_id policy c s owners ≡ some source
      → IsWorthPulling s layer expert source
  least_loaded-IsWorthPulling s layer expert source [] want e h = cc
  least_loaded-IsWorthPulling s layer expert source (o ∷ os) want e h =
      let load = load_of self_id policy c s in
      let same : min_by load o os ≡ source = ground (arith, h) in
      let there : elem source (o ∷ os) ≡ true =
        sym (ap (λ m. elem m (o ∷ os)) same) ∙ elem-min_by load o os in
      let among = elem-filter (λ x. not (x == self_id)) source (c.owner_lookup layer expert s) in
      let kept : (elem source (c.owner_lookup layer expert s) && not (source == self_id)) ≡ true =
        rw (← among, ← e) there in
      record {
        not_held = ground (arith, want);
        room = ground (arith, want);
        hot = ground (arith, want);
        owns = ground (arith, kept);
        not_self = ground (arith, kept);
        least = λ owner owns other.
            let in_rest : elem owner (o ∷ os) ≡ true =
              ap (elem owner) e
              ∙ elem-filter (λ x. not (x == self_id)) owner (c.owner_lookup layer expert s)
              ∙ ground (arith, owns, other) in
            rw (← same) (min_by-le load o os owner in_rest);
      }

  source_for-IsWorthPulling :
      (s : S) (layer expert : ℕ) (source : String)
      → source_for self_id policy c layer expert s ≡ some source
      → IsWorthPulling s layer expert source
  source_for-IsWorthPulling s layer expert source h =
      elim (Bool-cases (is_wanted self_id policy c layer expert s)) [
        | inl want ↦ least_loaded-IsWorthPulling s layer expert source _ want refl (rw want at h)
        | inr unwanted ↦ let impossible : none ≡ some source = rw unwanted at h in cc
      ]

  first_candidate-IsWorthPulling :
      (report : List (ℕ × ℕ × ℕ)) (s : S) (layer expert : ℕ) (source : String)
      → first_candidate self_id policy c report s ≡ some (layer, expert, source)
      → IsWorthPulling s layer expert source
  unfolding first_candidate
  first_candidate-IsWorthPulling [] s layer expert source h = cc
  first_candidate-IsWorthPulling ((l, x, ema) ∷ report) s layer expert source h =
      elim (Option-cases (source_for self_id policy c l x s)) [
        | inl skipped ↦
            first_candidate-IsWorthPulling report s layer expert source
              (rw (skipped, first_candidate) at h)
        | inr (found, taken) ↦
            let same : some (l, x, found) ≡ some (layer, expert, source) =
              rw (taken, first_candidate) at h in
            let el : l ≡ layer = ground (arith, same) in
            let ex : x ≡ expert = ground (arith, same) in
            let ef : found ≡ source = ground (arith, same) in
            source_for-IsWorthPulling s layer expert source (rw (← el, ← ex, ← ef) taken)
      ]

  -- What the scanner picks to pull is an expert that the node does not hold, of a layer with room for it,
  -- at or above the threshold of heat, from another node that owns it and that no other owner undercuts
  -- in load.
  pub select_candidate-IsWorthPulling :
      (s : S) (layer expert : ℕ) (source : String)
      → select_candidate self_id policy c s ≡ some (layer, expert, source)
      → IsWorthPulling s layer expert source
  unfolding select_candidate
  select_candidate-IsWorthPulling s layer expert source h =
      first_candidate-IsWorthPulling (hottest_first (c.report s)) s layer expert source h

  -- Free to go: held, not from the start, attached long enough ago, and the coldest of these.
  pub record IsEvictable (now layer : ℕ) (s : S) (victim : ℕ) : Type 0 where
    pub full : policy.max_experts_per_layer ≤ length (held_at self_id policy c layer s)
    pub held : elem victim (held_at self_id policy c layer s) ≡ true
    pub not_bootstrap : elem victim (or_empty (lookup layer c.bootstrap_held)) ≡ false
    pub cooled : c.attach_ts layer victim s + policy.evict_cooldown ≤ now
    pub coldest_of :
        (expert : ℕ)
        → elem expert (held_at self_id policy c layer s) ≡ true
        → is_eligible self_id policy c now layer s expert ≡ true
        → c.local_heat layer victim s ≤ c.local_heat layer expert s

  coldest-IsEvictable :
      (now layer : ℕ) (s : S) (victim : ℕ) (eligible : List ℕ)
      → policy.max_experts_per_layer ≤ length (held_at self_id policy c layer s)
      → eligible
        ≡ filter (is_eligible self_id policy c now layer s) (held_at self_id policy c layer s)
      → coldest self_id policy c layer s eligible ≡ some victim
      → IsEvictable now layer s victim
  coldest-IsEvictable now layer s victim [] full e h = cc
  coldest-IsEvictable now layer s victim (x ∷ xs) full e h =
      let heat : ℕ → ℕ = λ y. c.local_heat layer y s in
      let held = held_at self_id policy c layer s in
      let ok = is_eligible self_id policy c now layer s in
      let same : min_by heat x xs ≡ victim = ground (arith, h) in
      let there : elem victim (x ∷ xs) ≡ true =
        sym (ap (λ m. elem m (x ∷ xs)) same) ∙ elem-min_by heat x xs in
      let kept : (elem victim held && ok victim) ≡ true =
        rw (← elem-filter ok victim held, ← e) there in
      record {
        full = full;
        held = ground (arith, kept);
        not_bootstrap = ground (arith, kept);
        cooled = ground (arith, kept);
        coldest_of = λ expert holds eligible.
            let in_rest : elem expert (x ∷ xs) ≡ true =
              ap (elem expert) e ∙ elem-filter ok expert held ∙ ground (arith, holds, eligible) in
            rw (← same) (min_by-le heat x xs expert in_rest);
      }

  -- The victim of a layer is an expert of a layer at capacity that the node holds, not from the start and
  -- for at least the cooldown, and no other such expert of the layer is colder.
  pub victim_of-IsEvictable :
      (now layer : ℕ) (s : S) (victim : ℕ)
      → victim_of self_id policy c now layer s ≡ some victim
      → IsEvictable now layer s victim
  unfolding victim_of
  victim_of-IsEvictable now layer s victim h =
      elim (Bool-cases
        (ltb (length (held_at self_id policy c layer s)) policy.max_experts_per_layer)) [
          | inl room ↦ let impossible : none ≡ some victim = rw room at h in cc
          | inr full ↦
              coldest-IsEvictable now layer s victim _ (ground (arith, full)) refl (rw full at h)
        ]
