-- ===== src/Wire/Bootstrap.antt =====
-- src/model_shard/membership/bootstrap.py: a node that starts asks the seeds in their order for a view.
-- `request_fn` is a parameter, given by the reply that a seed's address makes to a payload.
use model_shard.Prelude.{
  ℕ, String, ◌≡◌, refl, sym, ap, append_nil, ◌∙◌, Bool, true, false, Option, none, some, List, [],
  ◌∷◌, ◌++◌, map, ◌==◌, string_eq, if◌then◌else◌, All,
}
use model_shard.Prelude.Maybe.{◌>>=◌}
use model_shard.Membership.Records.{
  alive, MemberRecord, IncomingMessage, ping, ack, ping_req, ping_req_ack, join, membership_delta,
}
use model_shard.Membership.Machine.{PeerSpec}
use model_shard.Wire.Envelope.{Protobuf, encode_membership_envelope, decode_membership_envelope}
use model_shard.Wire.EnvelopeTrip.{received_record, decode-encode}

pub record BootstrapResult : Type 0 where
  pub success : Bool
  pub members : List MemberRecord

abbrev pub self_record : PeerSpec → String → MemberRecord
self_record p local_model_id = record {
  shard_id = p.shard_id;
  host = p.host;
  udp_port = p.udp_port;
  state = alive;
  incarnation = 0;
  model_id = local_model_id;
  last_state_change = 0;
  suspect_deadline = none;
}

-- What the loop makes of a decoded reply: the result, or `next`, which the other seeds give.
abbrev pub accept : Option IncomingMessage → Option BootstrapResult → Option BootstrapResult
accept (some (membership_delta m)) next = some (record { success = true; members = m.members })
accept other next = next

-- isinstance(decoded, MembershipDeltaMsg)
abbrev pub is_view : Option IncomingMessage → Bool
is_view (some (membership_delta m)) = true
is_view other = false

accept-other :
    (decoded : Option IncomingMessage) (next : Option BootstrapResult)
    → is_view decoded ≡ false
    → accept decoded next ≡ next
accept-other none next h = refl
accept-other (some (membership_delta m)) next h = cc
accept-other (some (ping m)) next h = refl
accept-other (some (ack m)) next h = refl
accept-other (some (ping_req m)) next h = refl
accept-other (some (ping_req_ack m)) next h = refl
accept-other (some (join m)) next h = refl

module _ {Other Raw : Type 0} (p : Protobuf Other Raw)
    (request : String × ℕ → Raw → Option Raw) where
  abbrev pub heard : Option Raw → Option BootstrapResult → Option BootstrapResult
  heard none next = next
  heard (some reply) next = do decoded ← decode_membership_envelope p reply; accept decoded next

  unfoldable pub contact : String → Raw → List PeerSpec → Option BootstrapResult
  contact self_id payload [] = some (record { success = false; members = [] })
  contact self_id payload (peer ∷ peers) =
      let next = contact self_id payload peers in
      if peer.shard_id == self_id
      then next
      else heard (request (peer.host, peer.udp_port) payload) next

  -- None where the encoding of the JoinMsg or the decoding of a reply raises.
  unfoldable pub bootstrap_sequential : PeerSpec → List PeerSpec → String → Option BootstrapResult
  unfolding contact
  bootstrap_sequential self_spec peers local_model_id = do
    payload ←
        encode_membership_envelope p
          (join (record { self_record = self_record self_spec local_model_id }))
    contact self_spec.shard_id payload peers

  -- A seed that does not end the loop: the node itself, one that is silent, or one whose reply is
  -- another message.
  pub data PassedOver (self_id : String) (payload : Raw) (peer : PeerSpec) : Type 0 where
    is_self : (peer.shard_id == self_id) ≡ true → PassedOver self_id payload peer
    times_out :
        (peer.shard_id == self_id) ≡ false
        → request (peer.host, peer.udp_port) payload ≡ none
        → PassedOver self_id payload peer
    answers_otherwise :
        (peer.shard_id == self_id) ≡ false
        → (reply : Raw) (decoded : Option IncomingMessage)
        → request (peer.host, peer.udp_port) payload ≡ some reply
        → decode_membership_envelope p reply ≡ some decoded
        → is_view decoded ≡ false
        → PassedOver self_id payload peer

  contact-skip :
      (self_id : String) (payload : Raw) (peer : PeerSpec) (peers : List PeerSpec)
      → PassedOver self_id payload peer
      → contact self_id payload (peer ∷ peers) ≡ contact self_id payload peers
  unfolding contact
  contact-skip self_id payload peer peers (is_self e) = rw e refl
  contact-skip self_id payload peer peers (times_out e silent) = rw (e, silent) refl
  contact-skip self_id payload peer peers (answers_otherwise e reply decoded came read other) =
      rw (e, came, read) (accept-other decoded _ other)

  contact-skips :
      (self_id : String) (payload : Raw) (before rest : List PeerSpec)
      → All (PassedOver self_id payload) before
      → contact self_id payload (before ++ rest) ≡ contact self_id payload rest
  unfolding contact
  contact-skips self_id payload [] rest h = refl
  contact-skips self_id payload (peer ∷ before) rest (one, h) =
      contact-skip self_id payload peer (before ++ rest) one
      ∙ contact-skips self_id payload before rest h

  -- The first seed that answers the Join with a MembershipDelta gives the node its members, those that
  -- it sent less the two times; the seeds before it are passed over and those after it do not matter.
  pub bootstrap-first_seed :
      (self_spec seed : PeerSpec) (before after : List PeerSpec) (local_model_id : String)
      (members : List MemberRecord) (payload reply : Raw)
      → encode_membership_envelope p
          (join (record { self_record = self_record self_spec local_model_id }))
        ≡ some payload
      → All (PassedOver self_spec.shard_id payload) before
      → (seed.shard_id == self_spec.shard_id) ≡ false
      → request (seed.host, seed.udp_port) payload ≡ some reply
      → encode_membership_envelope p (membership_delta (record { members = members })) ≡ some reply
      → bootstrap_sequential self_spec (before ++ seed ∷ after) local_model_id
        ≡ some (record { success = true; members = map received_record members })
  unfolding bootstrap_sequential contact
  bootstrap-first_seed self_spec seed before after model members payload reply sent passed other
        answered written =
      rw sent (
        contact-skips self_spec.shard_id payload before (seed ∷ after) passed
        ∙ rw
            (
              other,
              answered,
              decode-encode p (membership_delta (record { members = members })) reply written,
            )
            refl)

  -- When every seed is passed over, the result is that of a node alone: no success and no members.
  pub bootstrap-alone :
      (self_spec : PeerSpec) (peers : List PeerSpec) (local_model_id : String) (payload : Raw)
      → encode_membership_envelope p
          (join (record { self_record = self_record self_spec local_model_id }))
        ≡ some payload
      → All (PassedOver self_spec.shard_id payload) peers
      → bootstrap_sequential self_spec peers local_model_id
        ≡ some (record { success = false; members = [] })
  unfolding bootstrap_sequential contact
  bootstrap-alone self_spec peers model payload sent passed = rw sent (
      ap (contact self_spec.shard_id payload) (sym (append_nil peers))
      ∙ contact-skips self_spec.shard_id payload peers [] passed)
