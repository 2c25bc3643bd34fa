-- ===== src/Membership/Samples/Failure.antt =====
-- Runs of the failure detector, at the node of Samples.antt.
use model_shard.Prelude.{
  ◌≡◌, refl, true, false, some, List, [], ◌∷◌, string_eq, all, lookup, insert, contains,
}
use model_shard.Membership.Records.{dead, MemberRecord, OutgoingMessage}
use model_shard.Membership.Machine.{MembershipState, blank, view, install, ◌>>=◌}
use model_shard.Membership.Gossip.{mark_suspect}
use model_shard.Membership.Refines.Gossip.{mark_suspect-Runs}
use model_shard.Membership.Runs.{Runs-returned}
use model_shard.Membership.Handlers.{send, ack_of, handle_ping}
use model_shard.Membership.Tick.{maybe_promote_dead, start_protocol_period}
use model_shard.Membership.Spec.{IsWellFormed, here}
use model_shard.Membership.WellFormed.{Reached-probe}
use model_shard.Membership.Detection.{
  IsPromoted, maybe_promote_dead-IsPromoted, Doubts, start_protocol_period-Doubts,
}
use model_shard.Membership.Refutation.{LeadsAlive, is_answered, handle_ping-answers}
use model_shard.Membership.Samples.{
  in_order, start, rumour, rumours, start-IsWellFormed, run_of, record_of,
}

-- A probe of "b" that its helpers could not confirm.
abbrev lost : MembershipState
lost = record start {
  pending_probe = some (record {
    probe_id = "a-1";
    target_id = "b";
    sent_at = 0;
    indirect_sent_at = some 500;
    indirect_targets = "c" ∷ [];
    indirect_acks = 1;
    indirect_success_seen = false;
  });
}

program : Unit {0}
unfolding blank view install lookup insert contains maybe_promote_dead mark_suspect
    start_protocol_period ◌>>=◌
program = tt

lost-IsWellFormed : IsWellFormed lost
unfolding program
lost-IsWellFormed =
    (Reached-probe (record { well = start-IsWellFormed; steps = here }) lost.pending_probe
      refl).well

start_protocol_period-Doubts_example :
    (out : List OutgoingMessage) × (t : MembershipState) × (start_protocol_period in_order 1000 lost
      ≡ some (out, t))
    × Doubts "b" t
start_protocol_period-Doubts_example =
    start_protocol_period-Doubts in_order lost 1000 "b" lost-IsWellFormed refl

-- "b" is suspect from the time 1000 on.
abbrev doubted : MembershipState
doubted = (run_of tt start (mark_suspect "b" 1000 start)).1

doubted-IsWellFormed : IsWellFormed doubted
unfolding program
doubted-IsWellFormed =
    (Runs-returned (mark_suspect "b" 1000) start tt doubted
      (mark_suspect-Runs (record { well = start-IsWellFormed; steps = here }) "b" 1000 refl refl)
      refl).well

maybe_promote_dead-IsPromoted_example :
    IsPromoted "b" 9000
      (lookup "b" (view doubted))
      (lookup "b" (view (maybe_promote_dead 9000 doubted)))
maybe_promote_dead-IsPromoted_example =
    maybe_promote_dead-IsPromoted doubted doubted-IsWellFormed 9000 "b"

-- It is dead then.
now_dead :
    lookup "b" (view (maybe_promote_dead 9000 doubted))
    ≡ some (record (record_of "b" dead 0) { udp_port = 6002; last_state_change = 9000 })
unfolding program
now_dead = refl

start-knows_b : contains "b" start.members ≡ true
unfolding program
start-knows_b = refl

handle_ping-answers_example :
    (t : MembershipState) × (deltas : List MemberRecord) × (handle_ping rumour 100 start
      ≡ some (send "b" (ack_of t deltas) ∷ [], t))
    × LeadsAlive deltas t
    × (all (is_answered "a" t.self_incarnation) rumours ≡ true)
unfolding program
handle_ping-answers_example = handle_ping-answers rumour 100 start start-IsWellFormed start-knows_b
