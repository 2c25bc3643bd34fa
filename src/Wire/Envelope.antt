-- ===== src/Wire/Envelope.antt =====
-- encode_membership_envelope and decode_membership_envelope of src/model_shard/membership/messages.py.
-- The bytes, of the type `Raw`, are protobuf's: a parameter.
use model_shard.Prelude.{ℕ, String, ◌≡◌, Bool, Option, none, some, List, map}
use model_shard.Prelude.Maybe.{◌>>=◌}
use model_shard.Prelude.Bytes.{is_u64}
use model_shard.Membership.Records.{
  IncomingMessage, ping, ack, ping_req, ping_req_ack, join, membership_delta,
}
use model_shard.Wire.Messages.{
  MemberRecordPb, LoadReport, ExpertHeatReport, OwnershipDelta, each, checked, record_to_pb,
  record_from_pb, load_to_pb, load_from_pb, heat_to_pb, heat_from_pb, ownership_to_pb,
  ownership_from_pb,
}

pub record PingPb : Type 0 where
  pub protocol_version : ℕ
  pub from_shard_id : String
  pub from_incarnation : ℕ
  pub deltas : List MemberRecordPb
  pub loads : List LoadReport
  pub heat : List ExpertHeatReport
  pub ownership : List OwnershipDelta

pub record AckPb : Type 0 where
  pub protocol_version : ℕ
  pub from_shard_id : String
  pub from_incarnation : ℕ
  pub deltas : List MemberRecordPb
  pub loads : List LoadReport
  pub heat : List ExpertHeatReport
  pub ownership : List OwnershipDelta

pub record PingReqPb : Type 0 where
  pub protocol_version : ℕ
  pub from_shard_id : String
  pub target_shard_id : String
  pub probe_id : String
  pub deltas : List MemberRecordPb
  pub loads : List LoadReport
  pub heat : List ExpertHeatReport
  pub ownership : List OwnershipDelta

pub record PingReqAckPb : Type 0 where
  pub protocol_version : ℕ
  pub from_shard_id : String
  pub target_shard_id : String
  pub probe_id : String
  pub success : Bool
  pub deltas : List MemberRecordPb
  pub loads : List LoadReport
  pub heat : List ExpertHeatReport
  pub ownership : List OwnershipDelta

pub record JoinPb : Type 0 where
  pub protocol_version : ℕ
  pub self_record : MemberRecordPb

pub record MembershipDeltaPb : Type 0 where
  pub protocol_version : ℕ
  pub members : List MemberRecordPb

-- The payloads of an envelope: those of the membership protocol, and those that only go over TCP, which
-- `Other` stands for, or none.
pub data Envelope (Other : Type 0) : Type 0 where
  ping_payload : PingPb → Envelope Other
  ack_payload : AckPb → Envelope Other
  ping_req_payload : PingReqPb → Envelope Other
  ping_req_ack_payload : PingReqAckPb → Envelope Other
  join_payload : JoinPb → Envelope Other
  membership_delta_payload : MembershipDeltaPb → Envelope Other
  other_payload : Other → Envelope Other

-- SerializeToString and ParseFromString, which raises on bytes that are no message. What is written is
-- read back.
pub record Protobuf (Other Raw : Type 0) : Type 0 where
  pub serialize : Envelope Other → Raw
  pub parse : Raw → Option (Envelope Other)
  pub parse-serialize : (e : Envelope Other) → parse (serialize e) ≡ some e

abbrev pub protocol_version : ℕ
protocol_version = 1

module _ {Other : Type 0} where
  -- The envelope that is filled in.
  unfoldable pub to_envelope : IncomingMessage → Option (Envelope Other)
  unfolding each
  to_envelope (ping msg) = do
    incarnation ← checked (is_u64 msg.from_incarnation) msg.from_incarnation
    deltas ← each record_to_pb msg.deltas
    loads ← each load_to_pb msg.loads
    heat ← each heat_to_pb msg.heat
    ownership ← each ownership_to_pb msg.ownership
    some (
        ping_payload (record {
          protocol_version = protocol_version;
          from_shard_id = msg.from_shard_id;
          from_incarnation = incarnation;
          deltas = deltas;
          loads = loads;
          heat = heat;
          ownership = ownership;
        }))
  to_envelope (ack msg) = do
    incarnation ← checked (is_u64 msg.from_incarnation) msg.from_incarnation
    deltas ← each record_to_pb msg.deltas
    loads ← each load_to_pb msg.loads
    heat ← each heat_to_pb msg.heat
    ownership ← each ownership_to_pb msg.ownership
    some (
        ack_payload (record {
          protocol_version = protocol_version;
          from_shard_id = msg.from_shard_id;
          from_incarnation = incarnation;
          deltas = deltas;
          loads = loads;
          heat = heat;
          ownership = ownership;
        }))
  to_envelope (ping_req msg) = do
    deltas ← each record_to_pb msg.deltas
    loads ← each load_to_pb msg.loads
    heat ← each heat_to_pb msg.heat
    ownership ← each ownership_to_pb msg.ownership
    some (
        ping_req_payload (record {
          protocol_version = protocol_version;
          from_shard_id = msg.from_shard_id;
          target_shard_id = msg.target_shard_id;
          probe_id = msg.probe_id;
          deltas = deltas;
          loads = loads;
          heat = heat;
          ownership = ownership;
        }))
  to_envelope (ping_req_ack msg) = do
    deltas ← each record_to_pb msg.deltas
    loads ← each load_to_pb msg.loads
    heat ← each heat_to_pb msg.heat
    ownership ← each ownership_to_pb msg.ownership
    some (
        ping_req_ack_payload (record {
          protocol_version = protocol_version;
          from_shard_id = msg.from_shard_id;
          target_shard_id = msg.target_shard_id;
          probe_id = msg.probe_id;
          success = msg.success;
          deltas = deltas;
          loads = loads;
          heat = heat;
          ownership = ownership;
        }))
  to_envelope (join msg) = do
    self_record ← record_to_pb msg.self_record
    some (join_payload (record { protocol_version = protocol_version; self_record = self_record }))
  to_envelope (membership_delta msg) = do
    members ← each record_to_pb msg.members
    some (
        membership_delta_payload
          (record { protocol_version = protocol_version; members = members }))

  -- None for a payload of another protocol.
  unfoldable pub from_envelope : Envelope Other → Option (Option IncomingMessage)
  unfolding each
  from_envelope (ping_payload pb) = do
    deltas ← each record_from_pb pb.deltas
    some (
        some (
          ping (record {
            from_shard_id = pb.from_shard_id;
            from_incarnation = pb.from_incarnation;
            deltas = deltas;
            loads = map load_from_pb pb.loads;
            heat = map heat_from_pb pb.heat;
            ownership = map ownership_from_pb pb.ownership;
          })))
  from_envelope (ack_payload pb) = do
    deltas ← each record_from_pb pb.deltas
    some (
        some (
          ack (record {
            from_shard_id = pb.from_shard_id;
            from_incarnation = pb.from_incarnation;
            deltas = deltas;
            loads = map load_from_pb pb.loads;
            heat = map heat_from_pb pb.heat;
            ownership = map ownership_from_pb pb.ownership;
          })))
  from_envelope (ping_req_payload pb) = do
    deltas ← each record_from_pb pb.deltas
    some (
        some (
          ping_req (record {
            from_shard_id = pb.from_shard_id;
            target_shard_id = pb.target_shard_id;
            probe_id = pb.probe_id;
            deltas = deltas;
            loads = map load_from_pb pb.loads;
            heat = map heat_from_pb pb.heat;
            ownership = map ownership_from_pb pb.ownership;
          })))
  from_envelope (ping_req_ack_payload pb) = do
    deltas ← each record_from_pb pb.deltas
    some (
        some (
          ping_req_ack (record {
            from_shard_id = pb.from_shard_id;
            target_shard_id = pb.target_shard_id;
            probe_id = pb.probe_id;
            success = pb.success;
            deltas = deltas;
            loads = map load_from_pb pb.loads;
            heat = map heat_from_pb pb.heat;
            ownership = map ownership_from_pb pb.ownership;
          })))
  from_envelope (join_payload pb) = do
    self_record ← record_from_pb pb.self_record
    some (some (join (record { self_record = self_record })))
  from_envelope (membership_delta_payload pb) = do
    members ← each record_from_pb pb.members
    some (some (membership_delta (record { members = members })))
  from_envelope (other_payload payload) = some none

  module _ {Raw : Type 0} (p : Protobuf Other Raw) where
    unfoldable pub encode_membership_envelope : IncomingMessage → Option Raw
    unfolding to_envelope
    encode_membership_envelope msg = do env ← to_envelope msg; some (p.serialize env)

    unfoldable pub decode_membership_envelope : Raw → Option (Option IncomingMessage)
    unfolding from_envelope
    decode_membership_envelope raw = do env ← p.parse raw; from_envelope env
