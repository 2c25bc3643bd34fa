-- ===== src/Membership/Records.antt =====
-- src/model_shard/membership/records.py and config.py: the data of the SWIM layer. A time is a
-- number of milliseconds, where the source has seconds as a float.
use model_shard.Prelude.{ℕ, String, Bool, List, Option}

-- `SwimConfig`, all times in milliseconds.
pub record SwimConfig : Type 0 where
  pub t_ping_ms : ℕ
  pub t_tick_ms : ℕ
  pub t_timeout_ms : ℕ
  pub k_indirect : ℕ
  pub k_gossip : ℕ
  pub mtu_bytes : ℕ
  pub t_suspect_ms : ℕ

abbrev pub default_config : SwimConfig
default_config = record {
  t_ping_ms = 1000;
  t_tick_ms = 100;
  t_timeout_ms = 500;
  k_indirect = 2;
  k_gossip = 3;
  mtu_bytes = 1400;
  t_suspect_ms = 4000;
}

pub data MemberState : Type 0 where
  alive suspect dead : MemberState

-- The values of the `IntEnum`, by which states compare.
abbrev pub severity : MemberState → ℕ
severity alive = 0
severity suspect = 1
severity dead = 2

pub record MemberRecord : Type 0 where
  pub shard_id : String
  pub host : String
  pub udp_port : ℕ
  pub state : MemberState
  pub incarnation : ℕ
  pub model_id : String
  pub last_state_change : ℕ
  pub suspect_deadline : Option ℕ

pub record LoadReportRecord : Type 0 where
  pub shard_id : String
  pub queue_depth_ema : ℕ
  pub ts_unix_ms : ℕ

pub record HeatReportRecord : Type 0 where
  pub shard_id : String
  pub entries : List (ℕ × ℕ × ℕ)
  pub ts_unix_ms : ℕ

pub record OwnershipDeltaRecord : Type 0 where
  pub shard_id : String
  pub layer_idx : ℕ
  pub expert_id : ℕ
  pub action : ℕ
  pub ts_unix_ms : ℕ

pub record StateTransition : Type 0 where
  pub shard_id : String
  pub old_state : Option MemberState
  pub new_record : MemberRecord

pub record PingMsg : Type 0 where
  pub from_shard_id : String
  pub from_incarnation : ℕ
  pub deltas : List MemberRecord
  pub loads : List LoadReportRecord
  pub heat : List HeatReportRecord
  pub ownership : List OwnershipDeltaRecord

pub record AckMsg : Type 0 where
  pub from_shard_id : String
  pub from_incarnation : ℕ
  pub deltas : List MemberRecord
  pub loads : List LoadReportRecord
  pub heat : List HeatReportRecord
  pub ownership : List OwnershipDeltaRecord

pub record PingReqMsg : Type 0 where
  pub from_shard_id : String
  pub target_shard_id : String
  pub probe_id : String
  pub deltas : List MemberRecord
  pub loads : List LoadReportRecord
  pub heat : List HeatReportRecord
  pub ownership : List OwnershipDeltaRecord

pub record PingReqAckMsg : Type 0 where
  pub from_shard_id : String
  pub target_shard_id : String
  pub probe_id : String
  pub success : Bool
  pub deltas : List MemberRecord
  pub loads : List LoadReportRecord
  pub heat : List HeatReportRecord
  pub ownership : List OwnershipDeltaRecord

pub record JoinMsg : Type 0 where
  pub self_record : MemberRecord

pub record MembershipDeltaMsg : Type 0 where
  pub members : List MemberRecord

-- The union `IncomingMessage`, which is also that of the payloads sent.
pub data IncomingMessage : Type 0 where
  ping : PingMsg → IncomingMessage
  ack : AckMsg → IncomingMessage
  ping_req : PingReqMsg → IncomingMessage
  ping_req_ack : PingReqAckMsg → IncomingMessage
  join : JoinMsg → IncomingMessage
  membership_delta : MembershipDeltaMsg → IncomingMessage

pub record OutgoingMessage : Type 0 where
  pub target_shard_id : String
  pub payload : IncomingMessage
