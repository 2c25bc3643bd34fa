-- ===== src/Wire/Sendable.antt =====
-- The membership messages that can be put into an envelope: those whose numbers fit their fields.
use model_shard.Prelude.{
  ℕ, ◌≡◌, refl, Bool, Option, none, some, List, [], ◌∷◌, ◌&&◌, all, is_some, arith,
}
use model_shard.Prelude.Maybe.{◌>>=◌}
use model_shard.Prelude.Bytes.{is_u32, is_u64, is_i64}
use model_shard.Membership.Records.{
  MemberRecord, LoadReportRecord, HeatReportRecord, OwnershipDeltaRecord, IncomingMessage, ping,
  ack, ping_req, ping_req_ack, join, membership_delta,
}
use model_shard.Wire.Messages.{
  MemberRecordPb, LoadReport, ExpertHeatReport, OwnershipDelta, each, checked, record_to_pb,
  load_to_pb, heat_to_pb, heat_entry_to_pb, ownership_to_pb,
}
use model_shard.Wire.Envelope.{Protobuf, to_envelope, encode_membership_envelope}

abbrev pub fits_record : MemberRecord → Bool
fits_record r = is_u32 r.udp_port && is_u64 r.incarnation

abbrev pub fits_load : LoadReportRecord → Bool
fits_load r = is_u32 r.queue_depth_ema && is_i64 r.ts_unix_ms

abbrev pub fits_entry : ℕ × ℕ × ℕ → Bool
fits_entry (layer_idx, expert_id, ema) = is_u32 layer_idx && is_u32 expert_id && is_u32 ema

abbrev pub fits_heat : HeatReportRecord → Bool
fits_heat r = is_i64 r.ts_unix_ms && all fits_entry r.entries

abbrev pub fits_ownership : OwnershipDeltaRecord → Bool
fits_ownership r =
    is_u32 r.layer_idx && is_u32 r.expert_id && is_u32 r.action && is_i64 r.ts_unix_ms

abbrev pub fits_gossip :
    List MemberRecord
    → List LoadReportRecord
    → List HeatReportRecord
    → List OwnershipDeltaRecord
    → Bool
fits_gossip deltas loads heat ownership =
    all fits_record deltas
    && (all fits_load loads && (all fits_heat heat && all fits_ownership ownership))

-- Ports, layers, experts, loads and heats below 2 ^ 32, incarnations below 2 ^ 64, times below 2 ^ 63.
abbrev pub fits_message : IncomingMessage → Bool
fits_message (ping m) = is_u64 m.from_incarnation && fits_gossip m.deltas m.loads m.heat m.ownership
fits_message (ack m) = is_u64 m.from_incarnation && fits_gossip m.deltas m.loads m.heat m.ownership
fits_message (ping_req m) = fits_gossip m.deltas m.loads m.heat m.ownership
fits_message (ping_req_ack m) = fits_gossip m.deltas m.loads m.heat m.ownership
fits_message (join m) = fits_record m.self_record
fits_message (membership_delta m) = all fits_record m.members

is_some->>= :
    {A B : Type 0} (o : Option A) (after : A → Option B) (b c : Bool)
    → is_some o ≡ b
    → ((a : A) → is_some (after a) ≡ c)
    → is_some (o >>= after) ≡ (b && c)
is_some->>= none after b c h k = ground (arith, h)
is_some->>= (some a) after b c h k = ground (arith, h, k a)

is_some-last :
    {A B : Type 0} (o : Option A) (f : A → B) (b : Bool)
    → is_some o ≡ b
    → is_some (o >>= λ a. some (f a)) ≡ b
is_some-last none f b h = h
is_some-last (some a) f b h = h

module _ {A B : Type 0} (f : A → Option B) (q : A → Bool) where
  is_some-each : ((x : A) → is_some (f x) ≡ q x) → (xs : List A) → is_some (each f xs) ≡ all q xs
  unfolding each
  is_some-each h [] = refl
  is_some-each h (x ∷ xs) =
      is_some->>= (f x) _ (q x) (all q xs) (h x)
        (λ y. is_some-last (each f xs) _ (all q xs) (is_some-each h xs))

is_some-checked : {A : Type 0} (b : Bool) (a : A) → is_some (checked b a) ≡ b
is_some-checked b a = ground arith

records_fit : (rs : List MemberRecord) → is_some (each record_to_pb rs) ≡ all fits_record rs
records_fit = is_some-each record_to_pb fits_record (λ r. is_some-checked (fits_record r) _)

heat_fits : (r : HeatReportRecord) → is_some (heat_to_pb r) ≡ fits_heat r
heat_fits r =
    is_some->>= (checked (is_i64 r.ts_unix_ms) r.ts_unix_ms) _ _ _ (is_some-checked _ _) (λ ts.
      is_some-last (each heat_entry_to_pb r.entries) _ _ (
        is_some-each heat_entry_to_pb fits_entry (λ e. is_some-checked (fits_entry e) _) r.entries))

gossip_fits :
    {E : Type 0} (deltas : List MemberRecord) (loads : List LoadReportRecord)
    (heat : List HeatReportRecord) (ownership : List OwnershipDeltaRecord)
    (fill : List MemberRecordPb → List LoadReport → List ExpertHeatReport → List OwnershipDelta → E)
    → is_some (
        each record_to_pb deltas >>= λ ds. each load_to_pb loads >>= λ ls.
        each heat_to_pb heat >>= λ hs.
        each ownership_to_pb ownership >>= λ os. some (fill ds ls hs os))
      ≡ fits_gossip deltas loads heat ownership
gossip_fits deltas loads heat ownership fill =
    is_some->>= (each record_to_pb deltas) _ _ _ (records_fit deltas) λ ds.
      is_some->>= (each load_to_pb loads) _ _ _
        (is_some-each load_to_pb fits_load (λ r. is_some-checked (fits_load r) _) loads)
        λ ls.
          is_some->>= (each heat_to_pb heat) _ _ _
            (is_some-each heat_to_pb fits_heat heat_fits heat)
            λ hs. is_some-last (each ownership_to_pb ownership) _ _ (
              is_some-each ownership_to_pb fits_ownership
                (λ r. is_some-checked (fits_ownership r) _) ownership)

module _ (Other : Type 0) where
  envelope_fits : (m : IncomingMessage) → is_some (to_envelope {Other = Other} m) ≡ fits_message m
  unfolding to_envelope
  envelope_fits (ping m) =
      is_some->>= (checked (is_u64 m.from_incarnation) m.from_incarnation) _ _ _
        (is_some-checked _ _) (λ i. gossip_fits m.deltas m.loads m.heat m.ownership _)
  envelope_fits (ack m) =
      is_some->>= (checked (is_u64 m.from_incarnation) m.from_incarnation) _ _ _
        (is_some-checked _ _) (λ i. gossip_fits m.deltas m.loads m.heat m.ownership _)
  envelope_fits (ping_req m) = gossip_fits m.deltas m.loads m.heat m.ownership _
  envelope_fits (ping_req_ack m) = gossip_fits m.deltas m.loads m.heat m.ownership _
  envelope_fits (join m) =
      is_some-last (record_to_pb m.self_record) _ _ (is_some-checked (fits_record m.self_record) _)
  envelope_fits (membership_delta m) =
      is_some-last (each record_to_pb m.members) _ _ (records_fit m.members)

module _ {Other Raw : Type 0} (p : Protobuf Other Raw) where
  -- A message is encoded exactly when its numbers fit the fields of its protobuf message: ports, layers,
  -- experts, actions, loads and heats below 2 ^ 32, incarnations below 2 ^ 64 and times below 2 ^ 63.
  -- Otherwise `encode_membership_envelope` raises.
  pub encode_fits :
      (m : IncomingMessage) → is_some (encode_membership_envelope p m) ≡ fits_message m
  unfolding encode_membership_envelope
  encode_fits m = is_some-last (to_envelope m) _ _ (envelope_fits _ m)
