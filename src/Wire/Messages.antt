-- ===== src/Wire/Messages.antt =====
-- src/model_shard/membership/messages.py, the adapters of the records, and what proto/wire.proto says of
-- their messages. Setting a field to a number that its type does not hold raises, which is `none`.
use model_shard.Prelude.{
  ℕ, zero, suc, String, Bool, Option, none, some, List, [], ◌∷◌, ◌&&◌, if◌then◌else◌, map,
}
use model_shard.Prelude.Maybe.{◌>>=◌}
use model_shard.Prelude.Bytes.{is_u32, is_u64, is_i64}
use model_shard.Membership.Records.{
  MemberState, alive, suspect, dead, severity, MemberRecord, LoadReportRecord, HeatReportRecord,
  OwnershipDeltaRecord,
}

pub record MemberRecordPb : Type 0 where
  pub shard_id : String
  pub host : String
  pub udp_port : ℕ
  pub state : ℕ
  pub incarnation : ℕ
  pub model_id : String

pub record LoadReport : Type 0 where
  pub shard_id : String
  pub queue_depth_ema : ℕ
  pub ts_unix_ms : ℕ

pub record ExpertHeatEntry : Type 0 where
  pub layer_idx : ℕ
  pub expert_id : ℕ
  pub heat_ema_x100 : ℕ

pub record ExpertHeatReport : Type 0 where
  pub shard_id : String
  pub entries : List ExpertHeatEntry
  pub ts_unix_ms : ℕ

pub record OwnershipDelta : Type 0 where
  pub shard_id : String
  pub layer_idx : ℕ
  pub expert_id : ℕ
  pub action : ℕ
  pub ts_unix_ms : ℕ

-- [f(x) for x in xs], where f may raise.
unfoldable pub each : {A B : Type 0} → (A → Option B) → List A → Option (List B)
each f [] = some []
each f (x ∷ xs) = do y ← f x; ys ← each f xs; some (y ∷ ys)

abbrev pub checked : {A : Type 0} → Bool → A → Option A
checked fits a = if fits then some a else none

abbrev pub record_to_pb : MemberRecord → Option MemberRecordPb
record_to_pb r = checked (is_u32 r.udp_port && is_u64 r.incarnation) (record {
  shard_id = r.shard_id;
  host = r.host;
  udp_port = r.udp_port;
  state = severity r.state;
  incarnation = r.incarnation;
  model_id = r.model_id;
})

-- MemberState(n), a ValueError for a number that is no state.
abbrev pub member_state : ℕ → Option MemberState
member_state zero = some alive
member_state (suc zero) = some suspect
member_state (suc (suc zero)) = some dead
member_state (suc (suc (suc n))) = none

abbrev pub record_from_pb : MemberRecordPb → Option MemberRecord
record_from_pb pb = do
  state ← member_state pb.state
  some (record {
    shard_id = pb.shard_id;
    host = pb.host;
    udp_port = pb.udp_port;
    state = state;
    incarnation = pb.incarnation;
    model_id = pb.model_id;
    last_state_change = 0;
    suspect_deadline = none;
  })

abbrev pub load_to_pb : LoadReportRecord → Option LoadReport
load_to_pb r = checked (is_u32 r.queue_depth_ema && is_i64 r.ts_unix_ms) (record {
  shard_id = r.shard_id;
  queue_depth_ema = r.queue_depth_ema;
  ts_unix_ms = r.ts_unix_ms;
})

abbrev pub load_from_pb : LoadReport → LoadReportRecord
load_from_pb pb = record {
  shard_id = pb.shard_id;
  queue_depth_ema = pb.queue_depth_ema;
  ts_unix_ms = pb.ts_unix_ms;
}

abbrev pub heat_entry_to_pb : ℕ × ℕ × ℕ → Option ExpertHeatEntry
heat_entry_to_pb (layer_idx, expert_id, ema) =
    checked (is_u32 layer_idx && is_u32 expert_id && is_u32 ema)
      (record { layer_idx = layer_idx; expert_id = expert_id; heat_ema_x100 = ema })

abbrev pub heat_to_pb : HeatReportRecord → Option ExpertHeatReport
heat_to_pb r = do
  ts ← checked (is_i64 r.ts_unix_ms) r.ts_unix_ms
  entries ← each heat_entry_to_pb r.entries
  some (record { shard_id = r.shard_id; entries = entries; ts_unix_ms = ts })

abbrev pub heat_entry_from_pb : ExpertHeatEntry → ℕ × ℕ × ℕ
heat_entry_from_pb e = (e.layer_idx, e.expert_id, e.heat_ema_x100)

abbrev pub heat_from_pb : ExpertHeatReport → HeatReportRecord
heat_from_pb pb = record {
  shard_id = pb.shard_id;
  entries = map heat_entry_from_pb pb.entries;
  ts_unix_ms = pb.ts_unix_ms;
}

abbrev pub ownership_to_pb : OwnershipDeltaRecord → Option OwnershipDelta
ownership_to_pb r =
    checked (is_u32 r.layer_idx && is_u32 r.expert_id && is_u32 r.action && is_i64 r.ts_unix_ms)
      (record {
        shard_id = r.shard_id;
        layer_idx = r.layer_idx;
        expert_id = r.expert_id;
        action = r.action;
        ts_unix_ms = r.ts_unix_ms;
      })

abbrev pub ownership_from_pb : OwnershipDelta → OwnershipDeltaRecord
ownership_from_pb pb = record {
  shard_id = pb.shard_id;
  layer_idx = pb.layer_idx;
  expert_id = pb.expert_id;
  action = pb.action;
  ts_unix_ms = pb.ts_unix_ms;
}
