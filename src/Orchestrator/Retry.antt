-- ===== src/Orchestrator/Retry.antt =====
-- `_phase_b_with_retry`, without the provenance that it records: the experts that other shards hold, with
-- the peers that failed left out of the next attempt. Attempts are counted from 0; what an attempt sees
-- of the world is given by its number.
use model_shard.Prelude.{
  ℕ, zero, suc, ◌+◌, ◌-◌, String, Option, none, some, List, [], ◌∷◌, elem, filter, not, ◌==◌,
  if◌then◌else◌, Dict, keys, lookup, erase, contains, string_eq, nat_eq,
}
use model_shard.Prelude.Maybe.{◌>>=◌}
use model_shard.Routing.Group.{Sampler, ids_of, group_expert_ids_by_owner_loaded}
use model_shard.Orchestrator.Gather.{
  Future, running, returned, failed, Poll, Gathered, complete, rpc_failure, waiting, Awaited,
  update, gather_with_abort,
}

-- What the orchestrator is built with and what it meets: the polls of an attempt, how the futures stand
-- after the back-off, the loads, the owners by gossip, the generator's state; and the node's own backend,
-- which may raise.
pub record World (Out : Type 0) : Type 0 where
  pub self_shard_id : String
  pub owners : Dict String (List ℕ)
  pub rng : Sampler
  pub rng_state : ℕ → ℕ
  pub loads : ℕ → Dict String ℕ
  pub live_owners : ℕ → ℕ → List String
  pub polls : ℕ → List (Poll Out)
  pub after_backoff : ℕ → Poll Out
  pub run_selected_experts : List ℕ → Option (Dict ℕ Out)

-- The outputs, or the failure of a peer or of the routing that is raised, or an exception of the node's own
-- backend, which nothing catches; `blocked` where the polls of an attempt end while it waits.
pub data PhaseB (Out : Type 0) : Type 0 where
  outputs_of : Dict ℕ Out → PhaseB Out
  expert_rpc_failure : String → PhaseB Out
  no_owner : PhaseB Out
  backend_raised : PhaseB Out
  blocked : PhaseB Out

abbrev pub load_or_zero : Option ℕ → ℕ
load_or_zero none = 0
load_or_zero (some n) = n

module _ {Out : Type 0} (w : World Out) (needed : List ℕ) where
  -- The routing of attempt `k`, without the shards that failed before.
  abbrev pub route : ℕ → List String → List ℕ → Option (Dict String (List ℕ))
  route k excluded ids =
      group_expert_ids_by_owner_loaded w.rng ids
        (filter (λ entry. not (elem entry.0 excluded)) w.owners) (w.loads k) w.self_shard_id
        (load_or_zero (lookup w.self_shard_id (w.loads k))) (w.rng_state k)
        (λ e. filter (λ o. not (elem o excluded)) (w.live_owners k e))

  -- if local: outputs.update(run_selected_experts(local))
  abbrev pub run_local : List ℕ → Dict ℕ Out → Option (Dict ℕ Out)
  run_local [] outputs = some outputs
  run_local (e ∷ es) outputs = do new ← w.run_selected_experts (e ∷ es); some (update outputs new)

  abbrev pub after_local : (Dict ℕ Out → PhaseB Out) → Option (Dict ℕ Out) → PhaseB Out
  after_local next none = backend_raised
  after_local next (some outputs) = next outputs

  -- The outputs of the futures that are done, but for the failed peer's.
  abbrev pub drained : Future Out → Dict ℕ Out → Dict ℕ Out
  drained (returned new) outputs = update outputs new
  drained running outputs = outputs
  drained failed outputs = outputs

  unfoldable pub drain : (String → List ℕ → Future Out) → String → Awaited → Dict ℕ Out → Dict ℕ Out
  drain future failed_peer [] outputs = outputs
  drain future failed_peer ((peer, ids) ∷ asked) outputs =
      drain future failed_peer asked
        (if peer == failed_peer then outputs else drained (future peer ids) outputs)

  abbrev pub missing_of : Dict ℕ Out → List ℕ
  missing_of outputs = filter (λ e. not (contains e outputs)) needed

  abbrev pub Next : Type 0
  Next = List String → Awaited → Dict ℕ Out → PhaseB Out

  -- The next attempt runs what fell to the node itself, and waits for the others.
  abbrev pub routed :
      Next → List String → String → Dict ℕ Out → Option (Dict String (List ℕ)) → PhaseB Out
  routed next excluded peer outputs none = expert_rpc_failure peer
  routed next excluded peer outputs (some by_owner) =
      after_local (next excluded (erase w.self_shard_id by_owner))
        (run_local (ids_of w.self_shard_id by_owner) outputs)

  abbrev pub dispatch_missing : Next → ℕ → List String → String → Dict ℕ Out → List ℕ → PhaseB Out
  dispatch_missing next k excluded peer outputs [] = outputs_of outputs
  dispatch_missing next k excluded peer outputs (e ∷ es) =
      routed next excluded peer outputs (route (k + 1) excluded (e ∷ es))

  -- The failure of a peer, when there may be another attempt.
  abbrev pub again : Next → ℕ → List String → String → Awaited → Dict ℕ Out → PhaseB Out
  again next k excluded peer asked outputs =
      let outputs' = drain (w.after_backoff k).future peer asked outputs in
      dispatch_missing next k (peer ∷ excluded) peer outputs' (missing_of outputs')

  abbrev pub try_again : Option Next → ℕ → List String → String → Awaited → Dict ℕ Out → PhaseB Out
  try_again none k excluded peer asked outputs = expert_rpc_failure peer
  try_again (some next) k excluded peer asked outputs = again next k excluded peer asked outputs

  abbrev pub after_gather :
      Option Next → ℕ → List String → Awaited → Gathered × Dict ℕ Out → PhaseB Out
  after_gather next k excluded asked (complete, outputs) = outputs_of outputs
  after_gather next k excluded asked (waiting, outputs) = blocked
  after_gather next k excluded asked (rpc_failure peer, outputs) =
      try_again next k excluded peer asked outputs

  -- The loop `while True`, with `left` attempts more after this one, of number `k`.
  unfoldable pub retry : ℕ → ℕ → List String → Awaited → Dict ℕ Out → PhaseB Out
  unfolding drain
  retry zero k excluded asked outputs =
      after_gather none k excluded asked (gather_with_abort (w.polls k) (keys asked) asked outputs)
  retry (suc left) k excluded asked outputs =
      after_gather (some (retry left (k + 1))) k excluded asked
        (gather_with_abort (w.polls k) (keys asked) asked outputs)

  abbrev pub first_routed : ℕ → Option (Dict String (List ℕ)) → PhaseB Out
  first_routed left none = no_owner
  first_routed left (some by_owner) =
      after_local (retry left 0 [] (erase w.self_shard_id by_owner))
        (run_local (ids_of w.self_shard_id by_owner) [])

  unfoldable pub phase_b_with_retry : ℕ → PhaseB Out
  unfolding retry
  phase_b_with_retry retry_max_attempts = first_routed (retry_max_attempts - 1) (route 0 [] needed)
