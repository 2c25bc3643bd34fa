-- ===== src/Wire/EnvelopeTrip.antt =====
-- A membership message is read as it was sent, less the two times that are the receiver's own; which
-- messages can be sent.
use model_shard.Prelude.{ℕ, ◌≡◌, refl, Bool, true, false, Option, none, some, List, [], ◌∷◌, map}
use model_shard.Prelude.Maybe.{◌>>=◌, some->>=, value-same}
use model_shard.Prelude.Bytes.{is_u64, is_i64}
use model_shard.Membership.Records.{
  MemberState, alive, suspect, dead, severity, MemberRecord, LoadReportRecord, HeatReportRecord,
  OwnershipDeltaRecord, IncomingMessage, ping, ack, ping_req, ping_req_ack, join, membership_delta,
}
use model_shard.Wire.Messages.{
  MemberRecordPb, LoadReport, ExpertHeatEntry, ExpertHeatReport, OwnershipDelta, each, checked,
  member_state, record_to_pb, record_from_pb, load_to_pb, load_from_pb, heat_to_pb, heat_from_pb,
  heat_entry_to_pb, heat_entry_from_pb, ownership_to_pb, ownership_from_pb,
}
use model_shard.Wire.Envelope.{
  Envelope, Protobuf, to_envelope, from_envelope, encode_membership_envelope,
  decode_membership_envelope,
}

-- What the receiver has of a record: the times of the sender are not sent.
abbrev pub received_record : MemberRecord → MemberRecord
received_record r = record r { last_state_change = 0; suspect_deadline = none }

abbrev pub received_message : IncomingMessage → IncomingMessage
received_message (ping m) = ping (record m { deltas = map received_record m.deltas })
received_message (ack m) = ack (record m { deltas = map received_record m.deltas })
received_message (ping_req m) = ping_req (record m { deltas = map received_record m.deltas })
received_message (ping_req_ack m) =
    ping_req_ack (record m { deltas = map received_record m.deltas })
received_message (join m) = join (record m { self_record = received_record m.self_record })
received_message (membership_delta m) =
    membership_delta (record m { members = map received_record m.members })

module _ {A B : Type 0} (f : A → Option B) where
  each-nil : (ys : List B) → each f [] ≡ some ys → [] ≡ ys
  unfolding each
  each-nil ys h = value-same h

  each-cons :
      (x : A) (xs : List A) (zs : List B)
      → each f (x ∷ xs) ≡ some zs
      → (y : B) × (ys : List B) × (f x ≡ some y) × (each f xs ≡ some ys) × ((y ∷ ys) ≡ zs)
  unfolding each
  each-cons x xs zs h =
      let (y, one, h') = some->>= (f x) _ zs h in
      let (ys, rest, h'') = some->>= (each f xs) _ zs h' in (y, ys, one, rest, value-same h'')

  each-each :
      {C : Type 0} (g : B → Option C) (k : A → C)
      → ((x : A) (y : B) → f x ≡ some y → g y ≡ some (k x))
      → (xs : List A) (ys : List B) → each f xs ≡ some ys
      → each g ys ≡ some (map k xs)
  unfolding each
  each-each g k law [] ys h = rw (← each-nil ys h) refl
  each-each g k law (x ∷ xs) zs h =
      let (y, ys, one, rest, same) = each-cons x xs zs h in
      rw (← same, law x y one, each-each g k law xs ys rest) refl

  map-each :
      (g : B → A)
      → ((x : A) (y : B) → f x ≡ some y → g y ≡ x)
      → (xs : List A) (ys : List B) → each f xs ≡ some ys
      → map g ys ≡ xs
  map-each g law [] ys h = rw (← each-nil ys h) refl
  map-each g law (x ∷ xs) zs h =
      let (y, ys, one, rest, same) = each-cons x xs zs h in
      rw (← same, law x y one, map-each g law xs ys rest) refl

checked-some : {A : Type 0} (fits : Bool) (a b : A) → checked fits a ≡ some b → a ≡ b
checked-some true a b h = value-same h
checked-some false a b h = cc

member_state-severity : (st : MemberState) → member_state (severity st) ≡ some st
member_state-severity alive = refl
member_state-severity suspect = refl
member_state-severity dead = refl

record-trip :
    (r : MemberRecord) (pb : MemberRecordPb)
    → record_to_pb r ≡ some pb
    → record_from_pb pb ≡ some (received_record r)
record-trip r pb h = rw (← checked-some _ _ pb h, member_state-severity r.state) refl

load-trip : (r : LoadReportRecord) (pb : LoadReport) → load_to_pb r ≡ some pb → load_from_pb pb ≡ r
load-trip r pb h = rw (← checked-some _ _ pb h) refl

heat_entry-trip :
    (e : ℕ × ℕ × ℕ) (pb : ExpertHeatEntry)
    → heat_entry_to_pb e ≡ some pb
    → heat_entry_from_pb pb ≡ e
heat_entry-trip (l, x, n) pb h = rw (← checked-some _ _ pb h) refl

heat-trip :
    (r : HeatReportRecord) (pb : ExpertHeatReport) → heat_to_pb r ≡ some pb → heat_from_pb pb ≡ r
heat-trip r pb h =
    let (ts, dated, h') = some->>= (checked (is_i64 r.ts_unix_ms) r.ts_unix_ms) _ pb h in
    let (entries, read, h'') = some->>= (each heat_entry_to_pb r.entries) _ pb h' in
    rw
      (
        ← value-same h'',
        ← checked-some _ _ ts dated,
        map-each _ heat_entry_from_pb heat_entry-trip r.entries entries read,
      )
      refl

ownership-trip :
    (r : OwnershipDeltaRecord) (pb : OwnershipDelta)
    → ownership_to_pb r ≡ some pb
    → ownership_from_pb pb ≡ r
ownership-trip r pb h = rw (← checked-some _ _ pb h) refl

-- The four lists that the probes and their answers carry.
gossip-trip :
    {E : Type 0} (deltas : List MemberRecord) (loads : List LoadReportRecord)
    (heat : List HeatReportRecord) (ownership : List OwnershipDeltaRecord)
    (after : List MemberRecordPb
      → List LoadReport
      → List ExpertHeatReport
      → List OwnershipDelta
      → Option E)
    (e : E)
    → (each record_to_pb deltas >>= λ ds. each load_to_pb loads >>= λ ls.
        each heat_to_pb heat >>= λ hs. each ownership_to_pb ownership >>= λ os. after ds ls hs os)
      ≡ some e
    → (ds : List MemberRecordPb) × (ls : List LoadReport) × (hs : List ExpertHeatReport)
      × (os : List OwnershipDelta) × (after ds ls hs os ≡ some e)
      × (each record_from_pb ds ≡ some (map received_record deltas))
      × (map load_from_pb ls ≡ loads)
      × (map heat_from_pb hs ≡ heat)
      × (map ownership_from_pb os ≡ ownership)
gossip-trip deltas loads heat ownership after e h =
    let (ds, d, h1) = some->>= (each record_to_pb deltas) _ e h in
    let (ls, l, h2) = some->>= (each load_to_pb loads) _ e h1 in
    let (hs, t, h3) = some->>= (each heat_to_pb heat) _ e h2 in
    let (os, o, h4) = some->>= (each ownership_to_pb ownership) _ e h3 in
    (
      ds,
      ls,
      hs,
      os,
      h4,
      each-each _ record_from_pb received_record record-trip deltas ds d,
      map-each _ load_from_pb load-trip loads ls l,
      map-each _ heat_from_pb heat-trip heat hs t,
      map-each _ ownership_from_pb ownership-trip ownership os o,
    )

module _ {Other : Type 0} where
  envelope-trip :
      (m : IncomingMessage) (e : Envelope Other)
      → to_envelope m ≡ some e
      → from_envelope e ≡ some (some (received_message m))
  unfolding to_envelope from_envelope
  envelope-trip (ping m) e h =
      let (i, said, h') = some->>= (checked (is_u64 m.from_incarnation) m.from_incarnation) _ e h in
      let (ds, ls, hs, os, made, d, l, t, o) =
        gossip-trip m.deltas m.loads m.heat m.ownership _ e h' in
      rw (← value-same made, ← checked-some _ _ i said, d, l, t, o) refl
  envelope-trip (ack m) e h =
      let (i, said, h') = some->>= (checked (is_u64 m.from_incarnation) m.from_incarnation) _ e h in
      let (ds, ls, hs, os, made, d, l, t, o) =
        gossip-trip m.deltas m.loads m.heat m.ownership _ e h' in
      rw (← value-same made, ← checked-some _ _ i said, d, l, t, o) refl
  envelope-trip (ping_req m) e h =
      let (ds, ls, hs, os, made, d, l, t, o) =
        gossip-trip m.deltas m.loads m.heat m.ownership _ e h in
      rw (← value-same made, d, l, t, o) refl
  envelope-trip (ping_req_ack m) e h =
      let (ds, ls, hs, os, made, d, l, t, o) =
        gossip-trip m.deltas m.loads m.heat m.ownership _ e h in
      rw (← value-same made, d, l, t, o) refl
  envelope-trip (join m) e h =
      let (pb, one, made) = some->>= (record_to_pb m.self_record) _ e h in
      rw (← value-same made, record-trip m.self_record pb one) refl
  envelope-trip (membership_delta m) e h =
      let (ds, d, made) = some->>= (each record_to_pb m.members) _ e h in
      rw (← value-same made, each-each _ record_from_pb received_record record-trip m.members ds d)
        refl

module _ {Other Raw : Type 0} (p : Protobuf Other Raw) where
  -- What is encoded is decoded to the same message, with the records' times left out.
  pub decode-encode :
      (m : IncomingMessage) (raw : Raw)
      → encode_membership_envelope p m ≡ some raw
      → decode_membership_envelope p raw ≡ some (some (received_message m))
  unfolding encode_membership_envelope decode_membership_envelope
  decode-encode m raw h =
      let (e, filled, made) = some->>= (to_envelope m) _ raw h in
      rw (← value-same made, p.parse-serialize e) (envelope-trip m e filled)
