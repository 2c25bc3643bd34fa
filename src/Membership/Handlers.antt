-- ===== src/Membership/Handlers.antt =====
-- `recv` and the handlers of src/model_shard/membership/state.py.
use model_shard.Prelude.{
  ℕ, ◌+◌, String, Option, none, some, List, [], ◌∷◌, ◌++◌, Bool, true, false, ◌&&◌, ◌||◌, not, ◌==◌,
  lookup, contains, values, string_eq, if◌then◌else◌, ltb, leb, length,
}
use model_shard.Membership.Records.{
  MemberState, alive, MemberRecord, PingMsg, AckMsg, PingReqMsg, PingReqAckMsg, JoinMsg,
  MembershipDeltaMsg, IncomingMessage, ping, ack, ping_req, ping_req_ack, join, membership_delta,
  OutgoingMessage,
}
use model_shard.Membership.Machine.{
  PendingHelp, PendingProbe, MembershipState, M, pure, gets, modify, ◌>>◌, for_each, install, ◌>>=◌,
}
use model_shard.Membership.Gossip.{
  is_dead, admit, mark_suspect, maybe_refute, maybe_apply_peer_delta, apply_deltas,
  maybe_promote_sender_alive, select_outgoing_deltas,
}

abbrev pub send : String → IncomingMessage → OutgoingMessage
send target payload = record { target_shard_id = target; payload = payload }

-- The state machine fills in the deltas; the runner adds loads, heat and ownership.
abbrev pub ack_of : MembershipState → List MemberRecord → IncomingMessage
ack_of s deltas = ack (record {
  from_shard_id = s.self_id;
  from_incarnation = s.self_incarnation;
  deltas = deltas;
  loads = [];
  heat = [];
  ownership = [];
})

abbrev pub ping_of : MembershipState → List MemberRecord → IncomingMessage
ping_of s deltas = ping (record {
  from_shard_id = s.self_id;
  from_incarnation = s.self_incarnation;
  deltas = deltas;
  loads = [];
  heat = [];
  ownership = [];
})

abbrev pub help_answer : MembershipState → PendingHelp → Bool → List MemberRecord → OutgoingMessage
help_answer s h success deltas = send h.requester_id (
    ping_req_ack (record {
      from_shard_id = s.self_id;
      target_shard_id = h.target_id;
      probe_id = h.probe_id;
      success = success;
      deltas = deltas;
      loads = [];
      heat = [];
      ownership = [];
    }))

unfoldable pub handle_ping : PingMsg → ℕ → M (List OutgoingMessage)
unfolding apply_deltas maybe_promote_sender_alive select_outgoing_deltas
handle_ping msg now = do
  s ← gets (λ s. s)
  if not (contains msg.from_shard_id s.members) then pure [] else do
    modify (maybe_promote_sender_alive msg.from_shard_id msg.from_incarnation now)
    apply_deltas msg.deltas now
    deltas ← select_outgoing_deltas
    s' ← gets (λ s. s)
    pure (send msg.from_shard_id (ack_of s' deltas) ∷ [])

-- The loop over `_pending_helps` of `_handle_ack` and `_maybe_timeout_helps`: the helps that are
-- `due` are answered, the others remain.
unfoldable pub answer_helps :
    (PendingHelp → Bool) → Bool → List PendingHelp → M (List OutgoingMessage × List PendingHelp)
unfolding select_outgoing_deltas
answer_helps due success [] = pure ([], [])
answer_helps due success (h ∷ hs) =
    if due h
    then (do
      deltas ← select_outgoing_deltas
      s ← gets (λ s. s)
      rest ← answer_helps due success hs
      pure (help_answer s h success deltas ∷ rest.0, rest.1))
    else (do rest ← answer_helps due success hs; pure (rest.0, h ∷ rest.1))

abbrev pub probes : Option PendingProbe → String → Bool
probes none sender = false
probes (some probe) sender = probe.target_id == sender

-- `if probe is not None and probe.target_id == sender: self._pending_probe = None`
abbrev pub clear_probe : String → MembershipState → MembershipState
clear_probe sender s =
    if probes s.pending_probe sender then record s { pending_probe = none } else s

abbrev pub resolve_helps : (PendingHelp → Bool) → Bool → M (List OutgoingMessage)
resolve_helps due success = do
  helps ← gets (λ s. s.pending_helps)
  answered ← answer_helps due success helps
  modify (λ s. record s { pending_helps = answered.1 })
  pure answered.0

unfoldable pub handle_ack : AckMsg → ℕ → M (List OutgoingMessage)
unfolding apply_deltas maybe_promote_sender_alive answer_helps
handle_ack msg now = do
  modify (clear_probe msg.from_shard_id)
  modify (maybe_promote_sender_alive msg.from_shard_id msg.from_incarnation now)
  apply_deltas msg.deltas now
  resolve_helps (λ h. h.target_id == msg.from_shard_id) true

unfoldable pub handle_pingreq : PingReqMsg → ℕ → M (List OutgoingMessage)
unfolding select_outgoing_deltas
handle_pingreq msg now = do
  s ← gets (λ s. s)
  if not (contains msg.target_shard_id s.members) then pure [] else do
    modify (λ s. record s {
      pending_helps =
          s.pending_helps
          ++ record {
            probe_id = msg.probe_id;
            target_id = msg.target_shard_id;
            requester_id = msg.from_shard_id;
            sent_at = now;
          }
            ∷ [];
    })
    deltas ← select_outgoing_deltas
    s' ← gets (λ s. s)
    pure (send msg.target_shard_id (ping_of s' deltas) ∷ [])

-- An answer to the probe in flight.
abbrev pub count_indirect : PendingProbe → PingReqAckMsg → ℕ → M (Unit {0})
count_indirect probe msg now =
    let new_acks = probe.indirect_acks + 1 in
    let new_success = probe.indirect_success_seen || msg.success in
    if leb (length probe.indirect_targets) new_acks && not new_success
    then mark_suspect probe.target_id now >> modify (λ s. record s { pending_probe = none })
    else modify (λ s. record s {
      pending_probe =
          some (record probe { indirect_acks = new_acks; indirect_success_seen = new_success });
    })

abbrev pub judge_indirect : Option PendingProbe → PingReqAckMsg → ℕ → M (Unit {0})
judge_indirect none msg now = pure tt
judge_indirect (some probe) msg now =
    if not (probe.probe_id == msg.probe_id)
    then pure tt
    else if msg.success
    then modify (λ s. record s { pending_probe = none })
    else count_indirect probe msg now

unfoldable pub handle_pingreqack : PingReqAckMsg → ℕ → M (List OutgoingMessage)
unfolding mark_suspect
handle_pingreqack msg now = do
  probe ← gets (λ s. s.pending_probe)
  judge_indirect probe msg now
  pure []

abbrev pub joined : MemberRecord → ℕ → MemberRecord
joined rec now = record rec { state = alive; last_state_change = now; suspect_deadline = none }

-- The newcomer is known as dead at a higher incarnation than the one it announces.
abbrev pub buried : Option MemberRecord → MemberRecord → Bool
buried none rec = false
buried (some prev) rec = is_dead prev.state && ltb rec.incarnation prev.incarnation

abbrev pub state_of : Option MemberRecord → Option MemberState
state_of none = none
state_of (some prev) = some prev.state

unfoldable pub handle_join : JoinMsg → ℕ → M (List OutgoingMessage)
unfolding admit
handle_join msg now = do
  let rec = msg.self_record
  s ← gets (λ s. s)
  if not (admit s rec) then pure [] else do
    let prev = lookup rec.shard_id s.members
    if buried prev rec
        then pure tt
        else modify (install rec.shard_id (state_of prev) (joined rec now) now)
    s' ← gets (λ s. s)
    pure (send rec.shard_id (membership_delta (record { members = values s'.members })) ∷ [])

-- The body of the loop of `_handle_delta`: an unknown member that is admitted is entered as it came.
unfoldable pub install_delta : ℕ → MemberRecord → M (Unit {0})
unfolding admit maybe_refute maybe_apply_peer_delta
install_delta now rec = do
  s ← gets (λ s. s)
  if rec.shard_id == s.self_id
      then maybe_refute rec now
      else if contains rec.shard_id s.members
      then maybe_apply_peer_delta rec now
      else if admit s rec
      then modify (install rec.shard_id none rec now)
      else pure tt

unfoldable pub handle_delta : MembershipDeltaMsg → ℕ → M (List OutgoingMessage)
unfolding for_each install_delta
handle_delta msg now = do for_each msg.members (install_delta now); pure []

unfoldable pub recv : IncomingMessage → ℕ → M (List OutgoingMessage)
unfolding handle_ping handle_ack handle_pingreq handle_pingreqack handle_join handle_delta
recv (ping msg) now = handle_ping msg now
recv (ack msg) now = handle_ack msg now
recv (ping_req msg) now = handle_pingreq msg now
recv (ping_req_ack msg) now = handle_pingreqack msg now
recv (join msg) now = handle_join msg now
recv (membership_delta msg) now = handle_delta msg now
