-- ===== src/Orchestrator/Prompt.antt =====
-- A fan-out whose peers all answer in time.
use model_shard.Prelude.Maybe.{value-same}
use model_shard.Prelude.{
  Bool, All, map, ◌==◌, ==_iff, inl, inr, Bool-cases, lookup, ℕ, zero, suc, ◌-◌, String, ◌≡◌, refl,
  ap, ◌∙◌, true, false, Option, none, some, List, [], ◌∷◌, all, filter, elem, not, Dict, keys,
  erase, sym, contains, string_eq, nat_eq, arith,
}
use model_shard.Routing.Group.{ids_of}
use model_shard.Routing.Partition.{
  is_held, IsPartition, group_expert_ids_by_owner_loaded-IsPartition,
}
use model_shard.Orchestrator.Gather.{
  returned, Poll, complete, Awaited, still, update, first_aborted, take_done, gather_with_abort,
}
use model_shard.Orchestrator.Covered.{is_due}
use model_shard.Orchestrator.Complete.{Answers, gather_complete}
use model_shard.Orchestrator.Fanout.{HasAll, all-of_has, routed-due}
use model_shard.Orchestrator.Retry.{
  World, PhaseB, outputs_of, route, run_local, retry, first_routed, phase_b_with_retry,
}

filter_all : {A : Type 0} (xs : List A) → filter (λ _. true) xs ≡ xs
filter_all [] = refl
filter_all (x ∷ xs) = ap (λ r. x ∷ r) (filter_all xs)

-- At a poll nobody has left ALIVE, and every future has its outputs.
pub record IsPrompt {Out : Type 0} (poll : Poll Out) : Type 0 where
  pub nobody_left : (peer : String) → poll.left_alive peer ≡ false
  pub new : String → List ℕ → Dict ℕ Out
  pub all_returned : (peer : String) (ids : List ℕ) → poll.future peer ids ≡ returned (new peer ids)

module _ {Out : Type 0} (poll : Poll Out) (prompt : IsPrompt poll) where
  none_aborted :
      (peers : List String) (asked : Awaited) → first_aborted poll.left_alive peers asked ≡ none
  none_aborted [] asked = refl
  none_aborted (peer ∷ peers) asked = rw (prompt.nobody_left peer) (none_aborted peers asked)

  all_done :
      (asked : Awaited) (outputs : Dict ℕ Out)
      → (out : Dict ℕ Out) × (take_done poll.future asked outputs ≡ still [] out)
  unfolding take_done
  all_done [] outputs = (outputs, refl)
  all_done ((peer, ids) ∷ asked) outputs =
      let (out, done) = all_done asked (update outputs (prompt.new peer ids)) in
      (out, rw (prompt.all_returned peer ids) done)

  gather_prompt :
      (polls : List (Poll Out)) (events : List String) (asked : Awaited) (outputs : Dict ℕ Out)
      → (out : Dict ℕ Out) × (gather_with_abort (poll ∷ polls) events asked outputs
          ≡ (complete, out))
  unfolding gather_with_abort
  gather_prompt polls events [] outputs = (outputs, refl)
  gather_prompt polls events (x ∷ asked) outputs =
      let (out, done) = all_done (x ∷ asked) outputs in
      (out, rw (none_aborted events (x ∷ asked)) (rw done refl))

  gather_prompt-contains :
      (polls : List (Poll Out)) (honest : All Answers (poll ∷ polls)) (events : List String)
      (asked : Awaited) (outputs out : Dict ℕ Out) (e : ℕ)
      → gather_with_abort (poll ∷ polls) events asked outputs ≡ (complete, out)
      → is_due e asked outputs ≡ true
      → contains e out ≡ true
  gather_prompt-contains polls honest events asked outputs out e done h =
      sym (ap (λ g. contains e g.1) done)
      ∙ gather_complete e (poll ∷ polls) events honest asked outputs h (ap (λ g. g.0) done)

-- Outputs that are returned, with one for each expert that is due.
abbrev Returns : {Out : Type 0} → Awaited → Dict ℕ Out → PhaseB Out → Type 0
Returns {Out} asked outputs r =
    (out : Dict ℕ Out) × (r ≡ outputs_of out)
    × ((e : ℕ) → is_due e asked outputs ≡ true → contains e out ≡ true)

-- The backend holds what the tables and gossip say of the node itself, and runs what it holds.
pub record RunsOwn {Out : Type 0} (w : World Out) : Type 0 where
  pub held : List ℕ
  pub all_listed :
      (e : ℕ) → is_held w.owners (w.live_owners 0) e w.self_shard_id ≡ true → elem e held ≡ true
  pub runs_held :
      (ids : List ℕ)
      → all (λ e. elem e held) ids ≡ true
      → (new : Dict ℕ Out) × (w.run_selected_experts ids ≡ some new)

-- The experts in the group of `owner` are among those that it is known to hold.
chosen-held :
    (holds : ℕ → String → Bool) (owner : String) (held : List ℕ) (chosen : List (ℕ × String))
    → ((e : ℕ) → holds e owner ≡ true → elem e held ≡ true)
    → All (λ w. holds w.0 w.1 ≡ true) chosen
    → all (λ e. elem e held) (map (λ w. w.0) (filter (λ w. w.1 == owner) chosen)) ≡ true
chosen-held holds owner held [] known h = refl
chosen-held holds owner held ((e, o) ∷ chosen) known h = elim (Bool-cases (o == owner)) [
  | inl same ↦
      let key : o ≡ owner = (==_iff o owner).0 same in
      let here : elem e held ≡ true = known e (rw (← key) h.0) in
      rw (same, here) (chosen-held holds owner held chosen known h.1)
  | inr other ↦ rw other (chosen-held holds owner held chosen known h.1)
]

module _ {Out : Type 0} (w : World Out) (needed : List ℕ) (poll : Poll Out)
    (polls : List (Poll Out)) (first : w.polls 0 ≡ poll ∷ polls) (prompt : IsPrompt poll)
    (honest : All Answers (poll ∷ polls)) (runs : HasAll w) (own : RunsOwn w) where
  retry_prompt :
      (left : ℕ) (asked : Awaited) (outputs : Dict ℕ Out)
      → Returns asked outputs (retry w needed left 0 [] asked outputs)
  unfolding retry
  retry_prompt zero asked outputs =
      let (out, done) = gather_prompt poll prompt polls (keys asked) asked outputs in
      (
        out,
        rw first (rw done refl),
        λ e. gather_prompt-contains poll prompt polls honest (keys asked) asked outputs out e done,
      )
  retry_prompt (suc left) asked outputs =
      let (out, done) = gather_prompt poll prompt polls (keys asked) asked outputs in
      (
        out,
        rw first (rw done refl),
        λ e. gather_prompt-contains poll prompt polls honest (keys asked) asked outputs out e done,
      )

  -- With no peer left out the tables are the ones that are given.
  all-held :
      (holder : ℕ → String) (ids : List ℕ)
      → all (λ e. is_held w.owners (w.live_owners 0) e (holder e)) ids ≡ true
      → all
          (λ e.
            is_held
              (filter (λ entry. not (elem entry.0 [])) w.owners)
              (λ i. filter (λ o. not (elem o [])) (w.live_owners 0 i))
              e
              (holder e))
          ids
        ≡ true
  all-held holder [] h = refl
  all-held holder (e ∷ es) h =
      rw (filter_all w.owners, filter_all (w.live_owners 0 e))
        (ground (arith, h, all-held holder es (ground (arith, h))))

  run_local-returns :
      (mine : List ℕ) (outputs : Dict ℕ Out)
      → all (λ e. elem e own.held) mine ≡ true
      → (out : Dict ℕ Out) × (run_local w needed mine outputs ≡ some out)
  run_local-returns [] outputs h = (outputs, refl)
  run_local-returns (i ∷ is) outputs h =
      let (new, ran) = own.runs_held (i ∷ is) h in (update outputs new, rw ran refl)

  -- What falls to the node itself is what it holds.
  own_group-held :
      (d : Awaited)
      → IsPartition
          (is_held
            (filter (λ entry. not (elem entry.0 [])) w.owners)
            (λ i. filter (λ o. not (elem o [])) (w.live_owners 0 i)))
          needed
          []
          d
      → all (λ e. elem e own.held) (ids_of w.self_shard_id d) ≡ true
  unfolding lookup
  own_group-held d p =
      ap (all (λ e. elem e own.held)) (p.groups w.self_shard_id)
      ∙ chosen-held _ w.self_shard_id own.held p.chosen
          (λ e there.
            own.all_listed e (rw (filter_all w.owners, filter_all (w.live_owners 0 e)) at there))
          p.all_hold

  first_routed_prompt :
      (left : ℕ) (by_owner : Option Awaited) (d : Awaited)
      → route w needed 0 [] needed ≡ by_owner
      → by_owner ≡ some d
      → all (λ e. elem e own.held) (ids_of w.self_shard_id d) ≡ true
      → (out : Dict ℕ Out) × (first_routed w needed left by_owner ≡ outputs_of out)
        × ((e : ℕ) → elem e needed ≡ true → contains e out ≡ true)
  first_routed_prompt left none d h found mine = cc
  first_routed_prompt left (some by_owner) d h found mine =
      let asked = erase w.self_shard_id by_owner in
      let same : by_owner ≡ d = value-same found in
      let (local, ran) = run_local-returns (ids_of w.self_shard_id by_owner) [] (rw same mine) in
      let (out, done, has) = retry_prompt left asked local in
      (
        out,
        rw ran done,
        λ e wanted. has e (
            routed-due w needed runs e 0 [] needed by_owner [] local h ran
              (ground (arith, wanted))),
      )

-- The fan-out returns, and completely: when each expert that is needed has a holder, by the static table
-- or by gossip, the node's own backend runs what it is said to hold, at the first poll no peer has left
-- ALIVE and every peer has answered, and what answers has an output for each expert asked for, the fan-out
-- returns outputs at the first attempt, with one for each expert that is needed.
pub phase_b_with_retry-outputs_of :
    {Out : Type 0} (w : World Out) (needed : List ℕ) (retry_max_attempts : ℕ) (holder : ℕ → String)
    (poll : Poll Out) (polls : List (Poll Out))
    → all (λ e. is_held w.owners (w.live_owners 0) e (holder e)) needed ≡ true
    → w.polls 0 ≡ poll ∷ polls
    → IsPrompt poll
    → All Answers (poll ∷ polls)
    → HasAll w
    → RunsOwn w
    → (outputs : Dict ℕ Out) × (phase_b_with_retry w needed retry_max_attempts ≡ outputs_of outputs)
      × (all (λ e. contains e outputs) needed ≡ true)
unfolding phase_b_with_retry
phase_b_with_retry-outputs_of w needed n holder poll polls held first prompt honest runs own =
    let (d, routed, p) =
      group_expert_ids_by_owner_loaded-IsPartition w.rng needed _ _ _ _ _ _ holder
        (all-held w needed poll polls first prompt honest runs own holder needed held) in
    let (out, done, has) =
      first_routed_prompt w needed poll polls first prompt honest runs own (n - 1)
        (route w needed 0 [] needed) d refl routed
        (own_group-held w needed poll polls first prompt honest runs own d p) in
    (out, done, all-of_has out needed has)
