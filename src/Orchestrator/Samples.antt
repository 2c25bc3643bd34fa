-- ===== src/Orchestrator/Samples.antt =====
-- A fan-out over two peers: the peer that the first attempt asks leaves ALIVE, the other one answers.
use mathlib.Core.Option.{some-ne-none}
use model_shard.Prelude.Maybe.{value-same}
use model_shard.Prelude.{
  Option, some, none, sym, String, ℕ, ◌≡◌, refl, Bool, true, false, List, [], ◌∷◌, all, elem, Dict,
  contains, arith, lookup, insert, erase, ◌==◌, if◌then◌else◌, ◌&&◌, ◌+◌, Bool-cases, inl, inr,
  string_eq, nat_eq,
}
use model_shard.Routing.Group.{group_loaded, group_expert_ids_by_owner_loaded, static_candidates}
use model_shard.Routing.Samples.{in_front}
use model_shard.Orchestrator.Gather.{
  Future, running, returned, Poll, update, take_done, gather_with_abort,
}
use model_shard.Orchestrator.Retry.{
  World, outputs_of, expert_rpc_failure, drain, retry, phase_b_with_retry,
}
use model_shard.Orchestrator.Complete.{Answers}
use model_shard.Orchestrator.Prompt.{RunsOwn, IsPrompt, phase_b_with_retry-outputs_of}
use model_shard.Orchestrator.Fanout.{HasAll, is_answer, all-of_has, phase_b_with_retry-is_answer}

abbrev outputs_for : List ℕ → Dict ℕ ℕ
outputs_for [] = []
outputs_for (e ∷ es) = (e, e + 100) ∷ outputs_for es

contains-outputs_for :
    (e : ℕ) (ids : List ℕ) → elem e ids ≡ true → contains e (outputs_for ids) ≡ true
unfolding contains lookup
contains-outputs_for e [] h = cc
contains-outputs_for e (i ∷ is) h = elim (Bool-cases (i == e)) [
  | inl same ↦ rw same refl
  | inr other ↦ rw other (contains-outputs_for e is (ground (arith, h, other)))
]

outputs_for-all : (ids : List ℕ) → all (λ e. contains e (outputs_for ids)) ids ≡ true
outputs_for-all ids = all-of_has (outputs_for ids) ids (λ e there. contains-outputs_for e ids there)

abbrev answer_of : Bool → List ℕ → Future ℕ
answer_of true ids = returned (outputs_for ids)
answer_of false ids = running

answer_of-all :
    (b : Bool) (ids : List ℕ) (new : Dict ℕ ℕ)
    → answer_of b ids ≡ returned new
    → all (λ e. contains e new) ids ≡ true
answer_of-all true ids new h =
    let same : outputs_for ids ≡ new = ground (arith, h) in rw (← same) (outputs_for-all ids)
answer_of-all false ids new h = cc

-- The node's own expert; the backend raises a KeyError for any other.
abbrev own_experts : List ℕ
own_experts = 1 ∷ []

abbrev run_own : List ℕ → Option (Dict ℕ ℕ)
run_own ids = if all (λ e. elem e own_experts) ids then some (outputs_for ids) else none

run_own-all :
    (ids : List ℕ) (new : Dict ℕ ℕ) → run_own ids ≡ some new → all (λ e. contains e new) ids ≡ true
run_own-all ids new h = elim (Bool-cases (all (λ e. elem e own_experts) ids)) [
  | inl held ↦ rw (← value-same (rw held at h)) (outputs_for-all ids)
  | inr lost ↦ absurd (some-ne-none new (sym (rw lost at h)))
]

-- "b" has answered, "c" is running and has left ALIVE.
abbrev poll_at : Bool → Bool → Poll ℕ
poll_at c_left late = record {
  left_alive = λ peer. c_left && peer == "c";
  future = λ peer ids. answer_of (peer == "b") ids;
  timed_out = late;
}

abbrev two_peers : List (Poll ℕ) → World ℕ
two_peers polls = record {
  self_shard_id = "a";
  owners = ("a", 1 ∷ []) ∷ ("c", 4 ∷ 5 ∷ []) ∷ ("b", 4 ∷ 5 ∷ []) ∷ [];
  rng = in_front;
  rng_state = λ k. 0;
  loads = λ k. ("b", 7) ∷ ("c", 3) ∷ [];
  live_owners = λ k e. [];
  polls = λ k. polls;
  after_backoff = λ k. poll_at false false;
  run_selected_experts = run_own;
}

has_all : (polls : List (Poll ℕ)) → HasAll (two_peers polls)
has_all polls = record { has_all = run_own-all }

runs_own : (polls : List (Poll ℕ)) → RunsOwn (two_peers polls)
runs_own polls = record {
  held = own_experts;
  all_listed = λ e h. ground (arith, h);
  runs_held = λ ids h. (outputs_for ids, rw h refl);
}

poll_at-Answers : (c_left late : Bool) → Answers (poll_at c_left late)
poll_at-Answers c_left late = record {
  answers = λ peer ids new h. answer_of-all (peer == "b") ids new h;
}

-- "c" has the lower load and is asked first; its experts go to "b" then.
reroutes :
    phase_b_with_retry (two_peers (poll_at true true ∷ [])) (1 ∷ 4 ∷ []) 2
    ≡ outputs_of ((1, 101) ∷ (4, 104) ∷ [])
unfolding phase_b_with_retry retry drain gather_with_abort take_done update
    group_expert_ids_by_owner_loaded group_loaded static_candidates lookup insert erase contains
reroutes = refl

one_attempt :
    phase_b_with_retry (two_peers (poll_at true true ∷ [])) (1 ∷ 4 ∷ []) 1 ≡ expert_rpc_failure "c"
unfolding phase_b_with_retry retry gather_with_abort take_done update
    group_expert_ids_by_owner_loaded group_loaded static_candidates lookup insert erase contains
one_attempt = refl

phase_b_with_retry-is_answer_example :
    is_answer (1 ∷ 4 ∷ []) (phase_b_with_retry (two_peers (poll_at true true ∷ [])) (1 ∷ 4 ∷ []) 2)
    ≡ true
phase_b_with_retry-is_answer_example =
    phase_b_with_retry-is_answer (two_peers (poll_at true true ∷ [])) (1 ∷ 4 ∷ []) 2 (has_all _)
      (λ k. (poll_at-Answers true true, tt)) (λ k. refl)

-- At one poll both peers have answered.
abbrev both_answered : Poll ℕ
both_answered = record {
  left_alive = λ peer. false;
  future = λ peer ids. returned (outputs_for ids);
  timed_out = false;
}

both_answered-IsPrompt : IsPrompt both_answered
both_answered-IsPrompt = record {
  nobody_left = λ peer. refl;
  new = λ peer ids. outputs_for ids;
  all_returned = λ peer ids. refl;
}

both_answered-Answers : Answers both_answered
both_answered-Answers = record { answers = λ peer ids new h. answer_of-all true ids new h }

abbrev holder : ℕ → String
holder e = if e == 1 then "a" else "b"

phase_b_with_retry-outputs_of_example :
    (outputs : Dict ℕ ℕ) × (phase_b_with_retry (two_peers (both_answered ∷ [])) (1 ∷ 4 ∷ 5 ∷ []) 2
      ≡ outputs_of outputs)
    × (all (λ e. contains e outputs) (1 ∷ 4 ∷ 5 ∷ []) ≡ true)
phase_b_with_retry-outputs_of_example =
    phase_b_with_retry-outputs_of (two_peers (both_answered ∷ [])) (1 ∷ 4 ∷ 5 ∷ []) 2 holder
      both_answered [] refl refl both_answered-IsPrompt (both_answered-Answers, tt) (has_all _)
      (runs_own _)
