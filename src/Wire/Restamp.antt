-- ===== src/Wire/Restamp.antt =====
-- The times that a datagram leaves out: a handler of the state machine stamps its own, so that a message
-- has the effect that it would have had unsent, except for a member that a MembershipDelta enters.
use model_shard.Prelude.{
  ℕ, ◌≡◌, refl, ap, Bool, true, false, Option, none, some, List, [], ◌∷◌, lookup, map, string_eq,
}
use model_shard.Membership.Records.{
  MemberRecord, PingReqAckMsg, JoinMsg, IncomingMessage, ping, ack, ping_req, ping_req_ack, join,
  membership_delta,
}
use model_shard.Membership.Machine.{
  PendingProbe, MembershipState, M, gets, for_each, ◌>>=◌, ◌>>◌, pure,
}
use model_shard.Membership.Gossip.{
  admit, maybe_refute, maybe_apply_peer_delta, apply_delta, apply_deltas,
}
use model_shard.Membership.Handlers.{
  handle_ping, handle_ack, handle_pingreqack, judge_indirect, handle_join, buried, recv,
}
use model_shard.Wire.Envelope.{Protobuf, encode_membership_envelope, decode_membership_envelope}
use model_shard.Wire.EnvelopeTrip.{received_record, received_message, decode-encode}

apply_delta-received :
    (now : ℕ) (d : MemberRecord) → apply_delta now (received_record d) ≡ apply_delta now d
unfolding apply_delta maybe_refute maybe_apply_peer_delta admit
apply_delta-received now d = refl

apply_deltas-received :
    (now : ℕ) (ds : List MemberRecord)
    → apply_deltas (map received_record ds) now ≡ apply_deltas ds now
unfolding apply_deltas for_each
apply_deltas-received now [] = refl
apply_deltas-received now (d ∷ ds) =
    rw (apply_delta-received now d, apply_deltas-received now ds) refl

judge_indirect-received :
    (probe : Option PendingProbe) (m : PingReqAckMsg) (now : ℕ)
    → judge_indirect probe (record m { deltas = map received_record m.deltas }) now
      ≡ judge_indirect probe m now
judge_indirect-received none m now = refl
judge_indirect-received (some probe) m now = refl

buried-received :
    (prev : Option MemberRecord) (r : MemberRecord)
    → buried prev (received_record r) ≡ buried prev r
buried-received none r = refl
buried-received (some prev) r = refl

handle_join-received :
    (m : JoinMsg) (now : ℕ) (s : MembershipState)
    → handle_join (record m { self_record = received_record m.self_record }) now s
      ≡ handle_join m now s
unfolding handle_join admit gets ◌>>=◌
handle_join-received m now s =
    rw (buried-received (lookup m.self_record.shard_id s.members) m.self_record) refl

abbrev pub is_membership_delta : IncomingMessage → Bool
is_membership_delta (membership_delta m) = true
is_membership_delta m = false

recv-received :
    (m : IncomingMessage) (now : ℕ)
    → is_membership_delta m ≡ false
    → recv (received_message m) now ≡ recv m now
unfolding recv handle_ping handle_ack handle_pingreqack
recv-received (ping m) now h = rw (apply_deltas-received now m.deltas) refl
recv-received (ack m) now h = rw (apply_deltas-received now m.deltas) refl
recv-received (ping_req m) now h = refl
recv-received (ping_req_ack m) now h =
    ap
      (λ (judge : Option PendingProbe → M (Unit {0})).
        gets (λ s. s.pending_probe) >>= λ probe. judge probe >> pure [])
      (λ i probe. judge_indirect-received probe m now i)
recv-received (join m) now h = λ i s. handle_join-received m now s i
recv-received (membership_delta m) now h = cc

module _ {Other Raw : Type 0} (p : Protobuf Other Raw) where
  -- A message that is not a MembershipDelta, once encoded, decoded and handled, has the effect on the
  -- state machine, and gets the answers, that the message itself would.
  pub recv-decode :
      (m : IncomingMessage) (raw : Raw) (now : ℕ) (s : MembershipState)
      → encode_membership_envelope p m ≡ some raw
      → is_membership_delta m ≡ false
      → (m' : IncomingMessage) × (decode_membership_envelope p raw ≡ some (some m'))
        × (recv m' now s ≡ recv m now s)
  recv-decode m raw now s h other =
      (received_message m, decode-encode p m raw h, ap (λ f. f s) (recv-received m now other))
