-- ===== src/Migration/Scanner.antt =====
-- `MigrationPolicy` and `MigrationScanner`: what to pull, and what to evict. Seconds are milliseconds. A
-- set is the list of its elements in the order in which Python goes through it.
use model_shard.Prelude.{
  ℕ, ◌+◌, String, Bool, true, false, Option, none, some, List, [], ◌∷◌, filter, elem, not, ◌==◌,
  ltb, leb, if◌then◌else◌, Dict, keys, lookup, length, string_eq, nat_eq, ◌&&◌,
}

pub record MigrationPolicy : Type 0 where
  pub scan_interval : ℕ
  pub heat_threshold : ℕ
  pub max_experts_per_layer : ℕ
  pub evict_cooldown : ℕ
  pub eviction_enabled : Bool

-- The collaborators that the scanner is built with, on the state `S` of the node, with weights `W`. A
-- call that may raise gives its state and whether it returned.
pub record Collaborators (S W : Type 0) : Type 0 where
  pub report : S → List (ℕ × ℕ × ℕ)
  pub local_heat : ℕ → ℕ → S → ℕ
  pub live_experts : S → Dict ℕ (List ℕ)
  pub owner_lookup : ℕ → ℕ → S → List String
  pub loads : S → Dict String ℕ
  pub pull : String → ℕ → ℕ → S → Option W
  pub attach : ℕ → ℕ → W → S → S × Bool
  pub announce : ℕ → ℕ → S → S
  pub bootstrap_held : Dict ℕ (List ℕ)
  pub attach_ts : ℕ → ℕ → S → ℕ
  pub evict : ℕ → ℕ → S → S × Bool

-- sorted(..., key=..., reverse=True): the hottest first, equals in their order.
abbrev pub insert_hot : ℕ × ℕ × ℕ → List (ℕ × ℕ × ℕ) → List (ℕ × ℕ × ℕ)
insert_hot x [] = x ∷ []
insert_hot x (y ∷ ys) = let rest = insert_hot x ys in if ltb x.2 y.2 then y ∷ rest else x ∷ y ∷ ys

abbrev pub hottest_first : List (ℕ × ℕ × ℕ) → List (ℕ × ℕ × ℕ)
hottest_first [] = []
hottest_first (x ∷ xs) = insert_hot x (hottest_first xs)

-- min(first + rest, key=key): the first of the least.
unfoldable pub min_by {ℓ} : {A : Type ℓ} → (A → ℕ) → A → List A → A
min_by key best [] = best
min_by key best (x ∷ xs) = min_by key (if ltb (key x) (key best) then x else best) xs

-- d.get(k, set())
abbrev pub or_empty : Option (List ℕ) → List ℕ
or_empty none = []
or_empty (some xs) = xs

abbrev pub or_most : Option ℕ → ℕ
or_most none = 2147483647
or_most (some n) = n

module _ {S W : Type 0} (self_id : String) (policy : MigrationPolicy) (c : Collaborators S W) where
  abbrev pub held_at : ℕ → S → List ℕ
  held_at layer s = or_empty (lookup layer (c.live_experts s))

  abbrev pub other_owners : ℕ → ℕ → S → List String
  other_owners layer expert s = filter (λ o. not (o == self_id)) (c.owner_lookup layer expert s)

  -- loads.get(s, 2**31 - 1)
  abbrev pub load_of : S → String → ℕ
  load_of s sid = or_most (lookup sid (c.loads s))

  -- The three tests that pass an entry over.
  abbrev pub is_wanted : ℕ → ℕ → S → Bool
  is_wanted layer expert s =
      not (elem expert (held_at layer s))
      && not (leb policy.max_experts_per_layer (length (held_at layer s)))
      && not (ltb (c.local_heat layer expert s) policy.heat_threshold)

  abbrev pub least_loaded : S → List String → Option String
  least_loaded s [] = none
  least_loaded s (o ∷ os) = some (min_by (load_of s) o os)

  abbrev pub source_for : ℕ → ℕ → S → Option String
  source_for layer expert s =
      if is_wanted layer expert s then least_loaded s (other_owners layer expert s) else none

  unfoldable pub first_candidate : List (ℕ × ℕ × ℕ) → S → Option (ℕ × ℕ × String)
  unfolding min_by
  first_candidate [] s = none
  first_candidate ((layer, expert, ema) ∷ report) s = elim (source_for layer expert s) [
    | none ↦ first_candidate report s
    | some source ↦ some (layer, expert, source)
  ]

  unfoldable pub select_candidate : S → Option (ℕ × ℕ × String)
  unfolding first_candidate
  select_candidate s = first_candidate (hottest_first (c.report s)) s

  -- A pull or an attachment that raises ends the attempt; only what was attached is announced.
  abbrev pub announce_if : ℕ → ℕ → S × Bool → S
  announce_if layer expert (s, true) = c.announce layer expert s
  announce_if layer expert (s, false) = s

  abbrev pub attach_pulled : ℕ → ℕ → Option W → S → S
  attach_pulled layer expert none s = s
  attach_pulled layer expert (some tensors) s =
      announce_if layer expert (c.attach layer expert tensors s)

  abbrev pub pull_pick : Option (ℕ × ℕ × String) → S → S
  pull_pick none s = s
  pull_pick (some (layer, expert, source)) s =
      attach_pulled layer expert (c.pull source layer expert s) s

  unfoldable pub maybe_pull_one : S → S
  unfolding select_candidate
  maybe_pull_one s = pull_pick (select_candidate s) s

  -- now - attach_ts >= evict_cooldown_s
  abbrev pub is_eligible : ℕ → ℕ → S → ℕ → Bool
  is_eligible now layer s expert =
      not (elem expert (or_empty (lookup layer c.bootstrap_held)))
      && leb (c.attach_ts layer expert s + policy.evict_cooldown) now

  abbrev pub coldest : ℕ → S → List ℕ → Option ℕ
  coldest layer s [] = none
  coldest layer s (e ∷ es) = some (min_by (λ x. c.local_heat layer x s) e es)

  -- The victim of a layer, none when the layer is below its capacity or nothing in it is eligible.
  unfoldable pub victim_of : ℕ → ℕ → S → Option ℕ
  unfolding min_by
  victim_of now layer s =
      if ltb (length (held_at layer s)) policy.max_experts_per_layer
      then none
      else coldest layer s (filter (is_eligible now layer s) (held_at layer s))

  abbrev pub try_evict : ℕ → Option ℕ → S → S × Bool
  try_evict layer none s = (s, false)
  try_evict layer (some victim) s = c.evict layer victim s

  -- Layer by layer, until an eviction returns.
  unfoldable pub evict_first : ℕ → List ℕ → S → S
  unfolding victim_of
  evict_first now [] s = s
  evict_first now (layer ∷ layers) s =
      let (s', evicted) = try_evict layer (victim_of now layer s) s in
      let rest = evict_first now layers s' in if evicted then s' else rest

  unfoldable pub maybe_evict_one : ℕ → S → S
  unfolding evict_first
  maybe_evict_one now s =
      if policy.eviction_enabled then evict_first now (keys (c.live_experts s)) s else s

  -- `_scan_once`, with the state of the lock: a scan that runs already is not joined.
  unfoldable pub scan_once : Bool → ℕ → S → S
  unfolding maybe_pull_one maybe_evict_one
  scan_once in_flight now s = if in_flight then s else maybe_evict_one now (maybe_pull_one s)
