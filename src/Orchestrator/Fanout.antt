-- ===== src/Orchestrator/Fanout.antt =====
-- `_phase_b_with_retry` returns only with an output for every expert that was needed, whichever peers
-- failed and wherever their experts went.
use model_shard.Prelude.{
  All, ℕ, zero, suc, ◌+◌, String, ◌≡◌, refl, ◌∙◌, Bool, true, false, Option, none, some, List, [],
  ◌∷◌, elem, elem-filter, all-elem, not, ◌||◌, Dict, keys, erase, lookup, ap, sym, ◌-◌, contains,
  all, any, elem_head, string_eq, nat_eq, arith, inl, inr, Bool-cases,
}
use mathlib.Core.Bool.{false≢true}
use model_shard.Prelude.Maybe.{some->>=, value-same}
use model_shard.Routing.Group.{ids_of, group_loaded, group_expert_ids_by_owner_loaded}
use model_shard.Orchestrator.Gather.{
  Gathered, complete, rpc_failure, waiting, Awaited, gather_with_abort,
}
use model_shard.Orchestrator.Retry.{
  World, PhaseB, outputs_of, expert_rpc_failure, no_owner, backend_raised, blocked, route,
  run_local, after_local, drain, missing_of, Next, routed, dispatch_missing, try_again,
  after_gather, retry, first_routed, phase_b_with_retry,
}
use model_shard.Orchestrator.Covered.{
  is_asked, is_due, group_loaded-asks, is_asked-erase, contains-update_old, contains-update_new,
}
use model_shard.Orchestrator.Complete.{Answers, gather_complete, gather_ends}

-- The experts' outputs have this one's, or there is a failure in their place.
abbrev has_output : {Out : Type 0} → ℕ → PhaseB Out → Bool
has_output e (outputs_of d) = contains e d
has_output e (expert_rpc_failure peer) = true
has_output e no_owner = true
has_output e backend_raised = true
has_output e blocked = false

-- The backend, when it returns, gives an output for each expert that it was given.
pub record HasAll {Out : Type 0} (w : World Out) : Type 0 where
  pub has_all :
      (ids : List ℕ) (new : Dict ℕ Out)
      → w.run_selected_experts ids ≡ some new
      → all (λ e. contains e new) ids ≡ true

module _ {Out : Type 0} (w : World Out) (needed : List ℕ) (runs : HasAll w) (e : ℕ) where
  run_local-due :
      (asked : Awaited) (mine : List ℕ) (outputs out : Dict ℕ Out)
      → run_local w needed mine outputs ≡ some out
      → (is_asked e asked || elem e mine || contains e outputs) ≡ true
      → is_due e asked out ≡ true
  run_local-due asked [] outputs out ran h = rw (← value-same ran) (ground (arith, h))
  run_local-due asked (i ∷ is) outputs out ran h =
      let (new, returned_new, made) = some->>= (w.run_selected_experts (i ∷ is)) _ out ran in
      rw (← value-same made) (elim (Bool-cases (elem e (i ∷ is))) [
        | inl mine ↦
            let here : contains e new ≡ true =
              all-elem (λ x. contains x new) (i ∷ is) e (runs.has_all (i ∷ is) new returned_new)
                mine in
            rw (contains-update_new e new outputs here) refl
        | inr other ↦ elim (Bool-cases (contains e outputs)) [
          | inl there ↦ rw (contains-update_old e new outputs there) refl
          | inr absent ↦ ground (arith, h, other, absent)
        ]
      ])

  -- Routed, an expert falls to the node itself or is asked of a peer.
  pub routed-due :
      (k : ℕ) (excluded : List String) (ids : List ℕ) (by_owner : Awaited)
      (outputs out : Dict ℕ Out)
      → route w needed k excluded ids ≡ some by_owner
      → run_local w needed (ids_of w.self_shard_id by_owner) outputs ≡ some out
      → (elem e ids || contains e outputs) ≡ true
      → is_due e (erase w.self_shard_id by_owner) out ≡ true
  unfolding group_expert_ids_by_owner_loaded
  routed-due k excluded ids by_owner outputs out h ran there =
      let (distinct, asks) = group_loaded-asks w.rng _ _ e ids _ [] by_owner h tt in
      run_local-due (erase w.self_shard_id by_owner) (ids_of w.self_shard_id by_owner) outputs out
        ran
        (elim (Bool-cases (elem e ids)) [
          | inl wanted ↦
              let split = is_asked-erase e w.self_shard_id by_owner distinct (asks wanted) in
              ground (arith, split)
          | inr other ↦ ground (arith, there, other)
        ])

  after_local-has :
      (next : Dict ℕ Out → PhaseB Out) (o : Option (Dict ℕ Out))
      → ((out : Dict ℕ Out) → o ≡ some out → has_output e (next out) ≡ true)
      → has_output e (after_local w needed next o) ≡ true
  after_local-has next none h = refl
  after_local-has next (some out) h = h out refl

  -- What the next attempt does with experts that are due.
  abbrev Keeps : Next w needed → Type 0
  Keeps next =
      (excluded : List String) (asked : Awaited) (outputs : Dict ℕ Out)
      → is_due e asked outputs ≡ true
      → has_output e (next excluded asked outputs) ≡ true

  abbrev KeepsAny : Option (Next w needed) → Type 0
  KeepsAny none = Unit
  KeepsAny (some next) = Keeps next

  routed-has :
      (next : Next w needed) (excluded : List String) (peer : String) (outputs : Dict ℕ Out) (k : ℕ)
      (ids : List ℕ) (by_owner : Option Awaited)
      → Keeps next
      → route w needed k excluded ids ≡ by_owner
      → (elem e ids || contains e outputs) ≡ true
      → has_output e (routed w needed next excluded peer outputs by_owner) ≡ true
  routed-has next excluded peer outputs k ids none keeps h there = refl
  routed-has next excluded peer outputs k ids (some by_owner) keeps h there =
      after_local-has (next excluded (erase w.self_shard_id by_owner)) _ (λ out ran.
        keeps excluded _ out (routed-due k excluded ids by_owner outputs out h ran there))

  dispatch_missing-has :
      (next : Next w needed) (k : ℕ) (excluded : List String) (peer : String) (outputs : Dict ℕ Out)
      (missing : List ℕ)
      → Keeps next
      → (elem e missing || contains e outputs) ≡ true
      → has_output e (dispatch_missing w needed next k excluded peer outputs missing) ≡ true
  dispatch_missing-has next k excluded peer outputs [] keeps h = ground (arith, h)
  dispatch_missing-has next k excluded peer outputs (i ∷ is) keeps h =
      routed-has next excluded peer outputs (k + 1) (i ∷ is) _ keeps refl h

  module _ (wanted : elem e needed ≡ true)
      (expires : (k : ℕ) → any (λ p. p.timed_out) (w.polls k) ≡ true)
      (honest : (k : ℕ) → All Answers (w.polls k)) where
    try_again-has :
        (next : Option (Next w needed)) (k : ℕ) (excluded : List String) (peer : String)
        (asked : Awaited) (outputs : Dict ℕ Out)
        → KeepsAny next
        → has_output e (try_again w needed next k excluded peer asked outputs) ≡ true
    try_again-has none k excluded peer asked outputs keeps = refl
    try_again-has (some next) k excluded peer asked outputs keeps =
        let drained = drain w needed (w.after_backoff k).future peer asked outputs in
        dispatch_missing-has next k (peer ∷ excluded) peer drained (missing_of w needed drained)
          keeps (ground (arith, wanted, elem-filter (λ i. not (contains i drained)) e needed))

    after_gather-has :
        (next : Option (Next w needed)) (k : ℕ) (excluded : List String) (asked : Awaited)
        (g : Gathered × Dict ℕ Out)
        → KeepsAny next
        → (g.0 ≡ complete → contains e g.1 ≡ true)
        → ¬ (g.0 ≡ waiting)
        → has_output e (after_gather w needed next k excluded asked g) ≡ true
    after_gather-has next k excluded asked (complete, outputs) keeps done over = done refl
    after_gather-has next k excluded asked (waiting, outputs) keeps done over = absurd (over refl)
    after_gather-has next k excluded asked (rpc_failure peer, outputs) keeps done over =
        try_again-has next k excluded peer asked outputs keeps

    retry-has : (left k : ℕ) → Keeps (retry w needed left k)
    unfolding retry
    retry-has zero k excluded asked outputs h =
        after_gather-has none k excluded asked _ tt
          (gather_complete e (w.polls k) (keys asked) (honest k) asked outputs h)
          (gather_ends (w.polls k) (keys asked) asked outputs (expires k))
    retry-has (suc left) k excluded asked outputs h =
        after_gather-has (some (retry w needed left (k + 1))) k excluded asked _
          (retry-has left (k + 1))
          (gather_complete e (w.polls k) (keys asked) (honest k) asked outputs h)
          (gather_ends (w.polls k) (keys asked) asked outputs (expires k))

    first_routed-has :
        (left : ℕ) (by_owner : Option Awaited)
        → route w needed 0 [] needed ≡ by_owner
        → has_output e (first_routed w needed left by_owner) ≡ true
    first_routed-has left none h = refl
    first_routed-has left (some by_owner) h =
        after_local-has (retry w needed left 0 [] (erase w.self_shard_id by_owner)) _ (λ out ran.
          retry-has left 0 [] _ out
            (routed-due 0 [] needed by_owner [] out h ran (ground (arith, wanted))))

-- What `_phase_b_with_retry` ends with: outputs that have one for each expert that is needed, or the
-- failure of a peer, or the failure of the routing or of the node's own backend.
abbrev pub is_answer : {Out : Type 0} → List ℕ → PhaseB Out → Bool
is_answer needed (outputs_of d) = all (λ e. contains e d) needed
is_answer needed (expert_rpc_failure peer) = true
is_answer needed no_owner = true
is_answer needed backend_raised = true
is_answer needed blocked = false

pub all-of_has :
    {Out : Type 0} (d : Dict ℕ Out) (ids : List ℕ)
    → ((e : ℕ) → elem e ids ≡ true → contains e d ≡ true)
    → all (λ e. contains e d) ids ≡ true
all-of_has d [] h = refl
all-of_has d (i ∷ is) h =
    ground (arith, h i (elem_head i is), all-of_has d is (λ e there. h e (ground (arith, there))))

is_answer-of_has :
    {Out : Type 0} (needed : List ℕ) (r : PhaseB Out)
    → ((e : ℕ) → elem e needed ≡ true → has_output e r ≡ true)
    → ¬ (r ≡ blocked)
    → is_answer needed r ≡ true
is_answer-of_has needed (outputs_of d) h over = all-of_has d needed h
is_answer-of_has needed (expert_rpc_failure peer) h over = refl
is_answer-of_has needed no_owner h over = refl
is_answer-of_has needed backend_raised h over = refl
is_answer-of_has needed blocked h over = absurd (over refl)

retry-none :
    {Out : Type 0} (w : World Out) (left : ℕ) → is_answer [] (retry w [] left 0 [] [] []) ≡ true
unfolding retry gather_with_abort
retry-none w zero = refl
retry-none w (suc left) = refl

-- The fan-out is total and complete. Of the peers and of the backend it is assumed that what returns has
-- an output for each expert asked for; then, when the deadline passes in the polls of each attempt, it
-- ends, with an output for each expert that is needed, or with the failure of a peer, of the routing or of
-- the node's own backend. So whichever peers fail and however often it is retried, it never returns outputs
-- that lack a needed one.
pub phase_b_with_retry-is_answer :
    {Out : Type 0} (w : World Out) (needed : List ℕ) (retry_max_attempts : ℕ)
    → HasAll w
    → ((k : ℕ) → All Answers (w.polls k))
    → ((k : ℕ) → any (λ p. p.timed_out) (w.polls k) ≡ true)
    → is_answer needed (phase_b_with_retry w needed retry_max_attempts) ≡ true
unfolding phase_b_with_retry
phase_b_with_retry-is_answer w [] n runs honest expires =
    unfold group_expert_ids_by_owner_loaded group_loaded erase lookup in retry-none w (n - 1)
phase_b_with_retry-is_answer w (i ∷ is) n runs honest expires =
    let needed = i ∷ is in
    let r = first_routed w needed (n - 1) (route w needed 0 [] needed) in
    let has : (e : ℕ) → elem e needed ≡ true → has_output e r ≡ true =
      λ e wanted. first_routed-has w needed runs e wanted expires honest (n - 1) _ refl in
    is_answer-of_has needed r has
      (λ stuck. absurd (false≢true (sym (ap (has_output i) stuck) ∙ has i (elem_head i is))))
