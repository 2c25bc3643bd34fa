-- ===== src/Wire/CodecSamples.antt =====
-- A ping with gossip over a wire that carries envelopes as they are, and a node that finds a seed.
use model_shard.Prelude.{
  ℕ, String, ◌≡◌, refl, true, false, Option, none, some, List, [], ◌∷◌, is_some, map, if◌then◌else◌,
  ◌==◌, string_eq, nat_eq,
}
use model_shard.Membership.Records.{
  suspect, alive, MemberRecord, IncomingMessage, ping, join, membership_delta,
}
use model_shard.Membership.Handlers.{recv}
use model_shard.Membership.Samples.{spec_of, start, record_of, rumour}
use model_shard.Wire.Envelope.{
  Envelope, Protobuf, encode_membership_envelope, decode_membership_envelope,
}
use model_shard.Wire.EnvelopeTrip.{received_record, received_message, decode-encode}
use model_shard.Wire.Sendable.{fits_message, encode_fits}
use model_shard.Wire.Restamp.{recv-decode}
use model_shard.Wire.Bootstrap.{
  is_self, times_out, bootstrap_sequential, bootstrap-first_seed, self_record, bootstrap-alone,
}

abbrev Wire : Type 0
Wire = Envelope (Unit {0})

abbrev as_is : Protobuf (Unit {0}) Wire
as_is = record { serialize = λ e. e; parse = λ e. some e; parse-serialize = λ e. refl }

abbrev accused : MemberRecord
accused = record (record_of "a" suspect 0) { last_state_change = 250; suspect_deadline = some 4250 }

abbrev gossip : IncomingMessage
gossip = ping (record rumour {
  deltas = accused ∷ [];
  loads = record { shard_id = "b"; queue_depth_ema = 250; ts_unix_ms = 1000 } ∷ [];
  heat = record { shard_id = "b"; entries = (15, 3, 800) ∷ []; ts_unix_ms = 1000 } ∷ [];
  ownership =
      record { shard_id = "b"; layer_idx = 15; expert_id = 3; action = 0; ts_unix_ms = 900 } ∷ [];
})

abbrev or_nothing : Option Wire → Wire
or_nothing none = Envelope.other_payload tt
or_nothing (some e) = e

unfoldable sent : Wire
unfolding encode_membership_envelope
sent = or_nothing (encode_membership_envelope as_is gossip)

gossip-sent : encode_membership_envelope as_is gossip ≡ some sent
unfolding sent
gossip-sent = refl

decode-encode_example :
    decode_membership_envelope as_is sent ≡ some (some (received_message gossip))
decode-encode_example = decode-encode as_is gossip sent gossip-sent

encode_fits_example : is_some (encode_membership_envelope as_is gossip) ≡ fits_message gossip
encode_fits_example = encode_fits as_is gossip

recv-decode_example :
    (m' : IncomingMessage) × (decode_membership_envelope as_is sent ≡ some (some m'))
    × (recv m' 5000 start ≡ recv gossip 5000 start)
recv-decode_example = recv-decode as_is gossip sent 5000 start gossip-sent refl

abbrev members : List MemberRecord
members = record_of "a" alive 0 ∷ record_of "b" alive 0 ∷ []

unfoldable asked : Wire
unfolding encode_membership_envelope
asked = or_nothing (
    encode_membership_envelope as_is
      (join (record { self_record = self_record (spec_of "a" 6001) "gemma" })))

asked-sent :
    encode_membership_envelope as_is
      (join (record { self_record = self_record (spec_of "a" 6001) "gemma" }))
    ≡ some asked
unfolding asked
asked-sent = refl

unfoldable view_sent : Wire
unfolding encode_membership_envelope
view_sent =
    or_nothing (encode_membership_envelope as_is (membership_delta (record { members = members })))

view-sent :
    encode_membership_envelope as_is (membership_delta (record { members = members }))
    ≡ some view_sent
unfolding view_sent
view-sent = refl

-- Only "c" replies.
abbrev third_replies : String × ℕ → Wire → Option Wire
third_replies (host, port) payload = if port == 6003 then some view_sent else none

bootstrap-first_seed_example :
    bootstrap_sequential as_is third_replies
      (spec_of "a" 6001)
      (spec_of "a" 6001 ∷ spec_of "b" 6002 ∷ spec_of "c" 6003 ∷ [])
      "gemma"
    ≡ some (record { success = true; members = map received_record members })
bootstrap-first_seed_example =
    bootstrap-first_seed as_is third_replies (spec_of "a" 6001) (spec_of "c" 6003)
      (spec_of "a" 6001 ∷ spec_of "b" 6002 ∷ []) [] "gemma" members asked view_sent asked-sent
      (is_self refl, (times_out refl refl, tt)) refl refl view-sent

bootstrap-alone_example :
    bootstrap_sequential as_is third_replies (spec_of "a" 6001) (spec_of "b" 6002 ∷ []) "gemma"
    ≡ some (record { success = false; members = [] })
bootstrap-alone_example =
    bootstrap-alone as_is third_replies (spec_of "a" 6001) (spec_of "b" 6002 ∷ []) "gemma" asked
      asked-sent (times_out refl refl, tt)
