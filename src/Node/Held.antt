-- ===== src/Node/Held.antt =====
-- What a node holds from the start it holds always.
use mathlib.Core.Bool.{false≢true}
use mathlib.Core.Option.{some-ne-none}
use model_shard.Prelude.{
  ℕ, String, ◌≡◌, refl, sym, ap, ◌∙◌, Bool, true, false, Option, none, some, List, [], ◌∷◌, elem,
  elem-append, elem-filter, not, ◌==◌, ◌||◌, if◌then◌else◌, lookup, insert, lookup-insert, nat_eq,
  arith, inl, inr, Bool-cases, nat_equals_iff, Dict, Option-cases,
}
use model_shard.Migration.Scanner.{MigrationPolicy}
use model_shard.Migration.Keeps.{scan_once_keeps}
use model_shard.Trackers.Average.{Average}
use model_shard.Node.Ownership.{
  Backend, Clock, DetachError, bootstrap_held, Node, to_set, as_sets, new_node, or_empty, ids_at,
  add_elem, discard, drop_at, attached, detached, refusal, after_attach, after_detach,
  detach_unless, migration_attach, migration_detach,
}
use model_shard.Trackers.Heat.{HeatTracker}
use model_shard.Runner.Loop.{MembershipRunner}
use model_shard.Node.Directory.{ShardSpec, ShardMap}
use model_shard.Node.Scanning.{collaborators, scan}

elem-add_elem : (x e : ℕ) (xs : List ℕ) → elem e xs ≡ true → elem e (add_elem x xs) ≡ true
elem-add_elem x e xs h = ground (arith, h, elem-append e xs (x ∷ []))

or_empty-if :
    (same : Bool) (o : Option (List ℕ)) (ids : List ℕ)
    → or_empty (if same then some ids else o) ≡ (if same then ids else or_empty o)
or_empty-if true o ids = refl
or_empty-if false o ids = refl

ids_at-insert :
    (l k : ℕ) (ids : List ℕ) (d : Dict ℕ (List ℕ))
    → ids_at l (insert k ids d) ≡ (if k == l then ids else ids_at l d)
ids_at-insert l k ids d =
    ap or_empty (lookup-insert k l ids d) ∙ or_empty-if (k == l) (lookup l d) ids

ids_at-drop_at :
    (l k e : ℕ) (d : Dict ℕ (List ℕ))
    → ids_at l (drop_at k e (lookup k d) d)
      ≡ (if k == l then discard e (ids_at l d) else ids_at l d)
ids_at-drop_at l k e d = elim (Option-cases (lookup k d)) [
  | inl missing ↦ rw missing (elim (Bool-cases (k == l)) [
    | inl same ↦ let key : k ≡ l = (nat_equals_iff k l).0 same in rw (same, ← key, missing) refl
    | inr other ↦ rw other refl
  ])
  | inr (ids, found) ↦ rw found (
      ids_at-insert l k (discard e ids) d ∙ elim (Bool-cases (k == l)) [
        | inl same ↦ let key : k ≡ l = (nat_equals_iff k l).0 same in rw (same, ← key, found) refl
        | inr other ↦ rw other refl
      ])
]

module _ (a : Average) {Stack Weights : Type 0} (b : Backend Stack Weights) where
  -- All experts of the node's own entry in the directory are among those it holds.
  abbrev pub HoldsBootstrap : Node a b → Type 0
  HoldsBootstrap node =
      (l e : ℕ)
      → elem e (ids_at l node.shard.moe_experts) ≡ true
      → elem e (ids_at l node.live_experts) ≡ true

  -- The guard of `migration_detach`.
  refusal-bootstrap :
      (cooldown l e now : ℕ) (node : Node a b)
      → refusal a b cooldown l e now node ≡ none
      → elem e (ids_at l node.shard.moe_experts) ≡ false
  refusal-bootstrap cooldown l e now node h =
      elim (Bool-cases (elem e (ids_at l node.shard.moe_experts))) [
        | inr free ↦ free
        | inl held ↦ absurd (some-ne-none bootstrap_held (rw held at h))
      ]

  attached-HoldsBootstrap :
      (l e : ℕ) (clock : Clock) (node : Node a b)
      → HoldsBootstrap node
      → HoldsBootstrap (attached a b l e clock node)
  attached-HoldsBootstrap l e clock node h k x own =
      rw (ids_at-insert k l (add_elem e (ids_at l node.live_experts)) node.live_experts)
        (elim (Bool-cases (l == k)) [
          | inl same ↦
              let key : l ≡ k = (nat_equals_iff l k).0 same in
              rw (same, key) (elem-add_elem e x (ids_at k node.live_experts) (h k x own))
          | inr other ↦ rw other (h k x own)
        ])

  detached-HoldsBootstrap :
      (l e : ℕ) (clock : Clock) (node : Node a b)
      → elem e (ids_at l node.shard.moe_experts) ≡ false
      → HoldsBootstrap node
      → HoldsBootstrap (detached a b l e clock node)
  detached-HoldsBootstrap l e clock node free h k x own =
      rw (ids_at-drop_at k l e node.live_experts) (elim (Bool-cases (l == k)) [
        | inl same ↦
            let key : l ≡ k = (nat_equals_iff l k).0 same in
            rw same (
              elem-filter (λ y. not (y == e)) x (ids_at k node.live_experts)
              ∙ rw (h k x own) (elim (Bool-cases (x == e)) [
                | inr differs ↦ rw differs refl
                | inl equal ↦
                    let expert : x ≡ e = (nat_equals_iff x e).0 equal in
                    absurd (false≢true (sym free ∙ rw (key, ← expert) own))
              ]))
        | inr other ↦ rw other (h k x own)
      ])

  after_attach-HoldsBootstrap :
      (l e : ℕ) (clock : Clock) (node : Node a b) (x : Stack × Bool)
      → HoldsBootstrap node
      → HoldsBootstrap (after_attach a b l e clock node x).0
  after_attach-HoldsBootstrap l e clock node (stack, true) h =
      attached-HoldsBootstrap l e clock (record node { stack = stack }) h
  after_attach-HoldsBootstrap l e clock node (stack, false) h = h

  migration_attach-HoldsBootstrap :
      (l e : ℕ) (w : Weights) (clock : Clock) (node : Node a b)
      → HoldsBootstrap node
      → HoldsBootstrap (migration_attach a b l e w clock node).0
  unfolding migration_attach
  migration_attach-HoldsBootstrap l e w clock node h =
      after_attach-HoldsBootstrap l e clock node (b.attach_expert l e w node.stack) h

  after_detach-HoldsBootstrap :
      (l e : ℕ) (clock : Clock) (node : Node a b) (x : Stack × Bool)
      → elem e (ids_at l node.shard.moe_experts) ≡ false
      → HoldsBootstrap node
      → HoldsBootstrap (after_detach a b l e clock node x).0
  after_detach-HoldsBootstrap l e clock node (stack, true) free h =
      detached-HoldsBootstrap l e clock (record node { stack = stack }) free h
  after_detach-HoldsBootstrap l e clock node (stack, false) free h = h

  detach_unless-HoldsBootstrap :
      (error : Option DetachError) (l e : ℕ) (clock : Clock) (node : Node a b)
      → (error ≡ none → elem e (ids_at l node.shard.moe_experts) ≡ false)
      → HoldsBootstrap node
      → HoldsBootstrap (detach_unless a b error l e clock node).0
  detach_unless-HoldsBootstrap (some error) l e clock node free h = h
  detach_unless-HoldsBootstrap none l e clock node free h =
      after_detach-HoldsBootstrap l e clock node (b.detach_expert l e node.stack) (free refl) h

  migration_detach-HoldsBootstrap :
      (cooldown l e : ℕ) (clock : Clock) (node : Node a b)
      → HoldsBootstrap node
      → HoldsBootstrap (migration_detach a b cooldown l e clock node).0
  unfolding migration_detach
  migration_detach-HoldsBootstrap cooldown l e clock node h =
      detach_unless-HoldsBootstrap (refusal a b cooldown l e clock.first node) l e clock node
        (refusal-bootstrap cooldown l e clock.first node) h

  -- A node that holds what the directory gives it still does after a scan, whatever is pulled and
  -- evicted and whichever calls of the backend fail.
  pub scan-HoldsBootstrap :
      (pull : String → ℕ → ℕ → Option Weights) (attach_clock evict_clock : ℕ → ℕ → Clock)
      (cooldown : ℕ) (policy : MigrationPolicy) (in_flight : Bool) (now : ℕ) (node : Node a b)
      → HoldsBootstrap node
      → HoldsBootstrap
          (scan a b pull attach_clock evict_clock cooldown node policy in_flight now node)
  scan-HoldsBootstrap pull attach_clock evict_clock cooldown policy in_flight now node h =
      scan_once_keeps node.shard.shard_id policy
        (collaborators a b pull attach_clock evict_clock cooldown node) HoldsBootstrap
        (λ l e w n. migration_attach-HoldsBootstrap l e w (attach_clock l e) n) (λ l e n k. k)
        (λ l e n. migration_detach-HoldsBootstrap cooldown l e (evict_clock l e) n) in_flight now
        node h

elem-to_set : (e : ℕ) (ids set : List ℕ) → elem e (to_set ids set) ≡ (elem e set || elem e ids)
unfolding to_set
elem-to_set e [] set = ground arith
elem-to_set e (x ∷ ids) set =
    elem-to_set e ids (add_elem x set)
    ∙ ground (arith, elem-append e set (x ∷ []), nat_equals_iff x e)

ids_at-as_sets :
    (l e : ℕ) (d : Dict ℕ (List ℕ))
    → elem e (ids_at l d) ≡ true
    → elem e (ids_at l (as_sets d)) ≡ true
unfolding lookup
ids_at-as_sets l e [] h = h
ids_at-as_sets l e ((k, ids) ∷ d) h = elim (Bool-cases (k == l)) [
  | inl same ↦ rw same (elem-to_set e ids [] ∙ rw same at h)
  | inr other ↦ rw other (ids_at-as_sets l e d (rw other at h))
]

-- What `__init__` starts with.
pub new_node-HoldsBootstrap :
    (a : Average) {Stack Weights : Type 0} (b : Backend Stack Weights) (shard : ShardSpec)
    (m : ShardMap) (heat : HeatTracker a) (runner : Option MembershipRunner) (stack : Stack)
    → HoldsBootstrap a b (new_node a b shard m heat runner stack)
unfolding new_node
new_node-HoldsBootstrap a b shard m heat runner stack l e h = ids_at-as_sets l e shard.moe_experts h
