-- ===== src/Orchestrator/Gather.antt =====
-- `_gather_with_abort`: the loop that waits for the peers' answers. What a poll sees of the threads and
-- the clock is given: which peers' abort events are set, how each future stands, whether the deadline has
-- passed.
use model_shard.Prelude.{
  ℕ, String, Bool, Option, none, some, List, [], ◌∷◌, ◌&&◌, if◌then◌else◌, Dict, insert, contains,
  string_eq, nat_eq,
}

-- fut.done() and fut.result(): the outputs by expert, or an exception.
pub data Future (Out : Type 0) : Type 0 where
  running : Future Out
  returned : Dict ℕ Out → Future Out
  failed : Future Out

-- What one time round sees.
pub record Poll (Out : Type 0) : Type 0 where
  pub left_alive : String → Bool
  pub future : String → List ℕ → Future Out
  pub timed_out : Bool

-- Whether all outputs are there, or an ExpertRpcFailure names a peer, or the loop still waits.
pub data Gathered : Type 0 where
  complete : Gathered
  rpc_failure : String → Gathered
  waiting : Gathered

-- outputs.update(new)
unfoldable pub update : {Out : Type 0} → Dict ℕ Out → Dict ℕ Out → Dict ℕ Out
update outputs [] = outputs
update outputs ((e, out) ∷ new) = update (insert e out outputs) new

-- The futures that are awaited, by peer, with the experts that the peer was asked for.
abbrev pub Awaited : Type 0
Awaited = Dict String (List ℕ)

-- The first peer in `events` order that has left ALIVE while its answer is awaited.
abbrev pub first_aborted : (String → Bool) → List String → Awaited → Option String
first_aborted left [] remaining = none
first_aborted left (peer ∷ peers) remaining =
    let rest = first_aborted left peers remaining in
    if left peer && contains peer remaining then some peer else rest

-- One pass over the futures: the peers still awaited and the outputs so far, or the peer whose future
-- raised.
pub data Pass (Out : Type 0) : Type 0 where
  still : Awaited → Dict ℕ Out → Pass Out
  broke : String → Dict ℕ Out → Pass Out

module _ {Out : Type 0} where
  abbrev pub keep_waiting : String × List ℕ → Pass Out → Pass Out
  keep_waiting asked (still remaining outputs) = still (asked ∷ remaining) outputs
  keep_waiting asked (broke failed_peer outputs) = broke failed_peer outputs

  abbrev pub take_one :
      Future Out → String × List ℕ → Dict ℕ Out → (Dict ℕ Out → Pass Out) → Pass Out
  take_one running asked outputs rest = keep_waiting asked (rest outputs)
  take_one (returned new) asked outputs rest = rest (update outputs new)
  take_one failed asked outputs rest = broke asked.0 outputs

  unfoldable pub take_done : (String → List ℕ → Future Out) → Awaited → Dict ℕ Out → Pass Out
  take_done future [] outputs = still [] outputs
  take_done future ((peer, ids) ∷ asked) outputs =
      take_one (future peer ids) (peer, ids) outputs (take_done future asked)

  -- What follows the pass: everything is there, or the time is up, or the next poll.
  abbrev pub after_pass :
      Bool → Pass Out → (Awaited → Dict ℕ Out → Gathered × Dict ℕ Out) → Gathered × Dict ℕ Out
  after_pass timed_out (broke peer outputs) next = (rpc_failure peer, outputs)
  after_pass timed_out (still [] outputs) next = (complete, outputs)
  after_pass timed_out (still ((peer, ids) ∷ asked) outputs) next =
      if timed_out then (rpc_failure peer, outputs) else next ((peer, ids) ∷ asked) outputs

  abbrev pub on_abort : Option String → Dict ℕ Out → Gathered × Dict ℕ Out → Gathered × Dict ℕ Out
  on_abort (some peer) outputs next = (rpc_failure peer, outputs)
  on_abort none outputs next = next

  -- `while remaining`: one poll after the other; `events` are the peers with an abort event.
  unfoldable pub gather_with_abort :
      List (Poll Out) → List String → Awaited → Dict ℕ Out → Gathered × Dict ℕ Out
  gather_with_abort polls events [] outputs = (complete, outputs)
  gather_with_abort [] events (asked ∷ remaining) outputs = (waiting, outputs)
  gather_with_abort (poll ∷ polls) events (asked ∷ remaining) outputs =
      on_abort (first_aborted poll.left_alive events (asked ∷ remaining)) outputs (
        after_pass poll.timed_out (take_done poll.future (asked ∷ remaining) outputs)
          (gather_with_abort polls events))
