-- ===== src/Membership/Refines/Handlers.antt =====
-- `recv` and its handlers.
use model_shard.Prelude.{
  ℕ, ◌+◌, String, ◌≡◌, refl, Bool, true, false, Option, none, some, List, [], ◌∷◌, ◌==◌, ==_iff,
  not, ◌&&◌, ◌||◌, lookup, contains, string_eq, leb, length, arith, inl, inr, Bool-cases,
}
use model_shard.Membership.Records.{
  MemberRecord, PingMsg, AckMsg, PingReqMsg, PingReqAckMsg, JoinMsg, IncomingMessage, ping, ack,
  ping_req, ping_req_ack, join, membership_delta,
}
use model_shard.Membership.Machine.{PendingHelp, PendingProbe, MembershipState, install}
use model_shard.Membership.Gossip.{admit}
use model_shard.Membership.Handlers.{
  handle_ping, answer_helps, probes, clear_probe, resolve_helps, handle_ack, handle_pingreq,
  count_indirect, judge_indirect, handle_pingreqack, buried, handle_join, install_delta,
  handle_delta, recv,
}
use model_shard.Membership.Spec.{joins, learns, targets_peer, Reached}
use model_shard.Membership.Runs.{
  Runs, Runs-pure, Runs-if, Runs-bind, Runs-gets-bind, Runs-modify, Runs-modify-bind, Runs-for_each,
}
use model_shard.Membership.WellFormed.{Reached-Change, Reached-Quiet, Reached-probe}
use model_shard.Membership.Refines.Gossip.{
  mark_suspect-Runs, maybe_refute-Runs, maybe_apply_peer_delta-Runs,
  maybe_promote_sender_alive-Reached, select_outgoing_deltas-Runs, apply_deltas-Runs,
}

pub answer_helps-Runs :
    {o s : MembershipState} (due : PendingHelp → Bool) (success : Bool) (helps : List PendingHelp)
    → Reached o s
    → Runs (λ _. Reached o) (answer_helps due success helps) s
unfolding answer_helps
answer_helps-Runs due success [] r = Runs-pure _ r
answer_helps-Runs due success (h ∷ hs) r =
    Runs-if (due h)
      (λ now. Runs-bind (select_outgoing_deltas-Runs r) λ deltas t q.
        Runs-gets-bind _ _
          (Runs-bind (answer_helps-Runs due success hs q) (λ rest u q'. Runs-pure _ q')))
      (λ later. Runs-bind (answer_helps-Runs due success hs r) (λ rest t q. Runs-pure _ q))

module _ {o s : MembershipState} (r : Reached o s) where
  pub resolve_helps-Runs :
      (due : PendingHelp → Bool) (success : Bool)
      → Runs (λ _. Reached o) (resolve_helps due success) s
  resolve_helps-Runs due success = Runs-gets-bind _ _ (
      Runs-bind (answer_helps-Runs due success s.pending_helps r) λ answered t q.
        Runs-modify-bind _ _ (Runs-pure _ (Reached-Quiet q _ (ground arith) q.well.probe_known)))

module _ {o s : MembershipState} (r : Reached o s) where
  handle_ping-Runs : (msg : PingMsg) (now : ℕ) → Runs (λ _. Reached o) (handle_ping msg now) s
  unfolding handle_ping
  handle_ping-Runs msg now = Runs-gets-bind _ _ (
      Runs-if (not (contains msg.from_shard_id s.members)) (λ unknown. Runs-pure _ r)
        (λ known. Runs-modify-bind _ _ (
          Runs-bind
            (apply_deltas-Runs msg.deltas now
              (maybe_promote_sender_alive-Reached r msg.from_shard_id msg.from_incarnation now))
            λ _ t q.
              Runs-bind (select_outgoing_deltas-Runs q)
                (λ deltas u q'. Runs-gets-bind _ _ (Runs-pure _ q')))))

  -- The probe of the sender is over; all else stands.
  clear_probe-Reached : (sender : String) → Reached o (clear_probe sender s)
  clear_probe-Reached sender = elim (Bool-cases (probes s.pending_probe sender)) [
    | inl over ↦ rw over (Reached-probe r none refl)
    | inr other ↦ rw other r
  ]

module _ {o s : MembershipState} (r : Reached o s) where
  handle_ack-Runs : (msg : AckMsg) (now : ℕ) → Runs (λ _. Reached o) (handle_ack msg now) s
  unfolding handle_ack
  handle_ack-Runs msg now = Runs-modify-bind _ _ (
      Runs-modify-bind _ _ (
        Runs-bind
          (apply_deltas-Runs msg.deltas now (
            maybe_promote_sender_alive-Reached (clear_probe-Reached r msg.from_shard_id)
              msg.from_shard_id msg.from_incarnation now))
          (λ _ t q. resolve_helps-Runs q _ true)))

  handle_pingreq-Runs :
      (msg : PingReqMsg) (now : ℕ) → Runs (λ _. Reached o) (handle_pingreq msg now) s
  unfolding handle_pingreq
  handle_pingreq-Runs msg now = Runs-gets-bind _ _ (
      Runs-if (not (contains msg.target_shard_id s.members)) (λ unknown. Runs-pure _ r)
        (λ known. Runs-modify-bind _ _ (
          Runs-bind
            (select_outgoing_deltas-Runs (Reached-Quiet r _ (ground arith) r.well.probe_known))
            (λ deltas t q. Runs-gets-bind _ _ (Runs-pure _ q)))))

  count_indirect-Runs :
      (probe : PendingProbe) (msg : PingReqAckMsg) (now : ℕ)
      → targets_peer (some probe) s ≡ true
      → Runs (λ _. Reached o) (count_indirect probe msg now) s
  count_indirect-Runs probe msg now known =
      Runs-if
        (leb (length probe.indirect_targets) (probe.indirect_acks + 1)
          && not (probe.indirect_success_seen || msg.success))
        (λ failed.
          Runs-bind (mark_suspect-Runs r probe.target_id now (ground arith) (ground arith))
            (λ _ t q. Runs-modify _ (Reached-probe q none refl)))
        (λ waits. Runs-modify _ (Reached-probe r _ known))

module _ {o s : MembershipState} (r : Reached o s) where
  judge_indirect-Runs :
      (probe : Option PendingProbe) (msg : PingReqAckMsg) (now : ℕ)
      → targets_peer probe s ≡ true
      → Runs (λ _. Reached o) (judge_indirect probe msg now) s
  judge_indirect-Runs none msg now known = Runs-pure _ r
  judge_indirect-Runs (some probe) msg now known =
      Runs-if (not (probe.probe_id == msg.probe_id)) (λ other. Runs-pure _ r)
        (λ same.
          Runs-if msg.success (λ ok. Runs-modify _ (Reached-probe r none refl))
            (λ failed. count_indirect-Runs r probe msg now known))

module _ {o s : MembershipState} (r : Reached o s) where
  handle_pingreqack-Runs :
      (msg : PingReqAckMsg) (now : ℕ) → Runs (λ _. Reached o) (handle_pingreqack msg now) s
  unfolding handle_pingreqack
  handle_pingreqack-Runs msg now = Runs-gets-bind _ _ (
      Runs-bind (judge_indirect-Runs r s.pending_probe msg now r.well.probe_known)
        (λ _ t q. Runs-pure _ q))

  handle_join-Runs : (msg : JoinMsg) (now : ℕ) → Runs (λ _. Reached o) (handle_join msg now) s
  unfolding handle_join
  handle_join-Runs msg now =
      let rec = msg.self_record in
      Runs-gets-bind _ _ (
        Runs-if (not (admit s rec)) (λ foreign. Runs-pure _ r)
          (λ fit.
            Runs-bind {R = λ _. Reached o}
              (Runs-if (buried (lookup rec.shard_id s.members) rec) (λ down. Runs-pure tt r)
                (λ up.
                  Runs-modify _
                    (Reached-Change r now rec.shard_id _ (joins rec refl (ground arith) up refl))))
              (λ _ t q. Runs-gets-bind _ _ (Runs-pure _ q))))

Reached-learn :
    {o s : MembershipState} (now : ℕ) (rec : MemberRecord)
    → Reached o s
    → contains rec.shard_id s.members ≡ false
    → admit s rec ≡ true
    → (rec.shard_id == s.self_id) ≡ false
    → Reached o (install rec.shard_id none rec now s)
unfolding contains
Reached-learn {s = s} now rec r unknown fit other =
    let absent : lookup rec.shard_id s.members ≡ none = ground arith in
    rw absent at (Reached-Change r now rec.shard_id rec (learns absent refl fit other))

pub install_delta-Runs :
    {o : MembershipState} (now : ℕ) (rec : MemberRecord) (s : MembershipState)
    → Reached o s
    → Runs (λ _. Reached o) (install_delta now rec) s
unfolding install_delta
install_delta-Runs now rec s r = Runs-gets-bind _ _ (
    Runs-if (rec.shard_id == s.self_id)
      (λ own. maybe_refute-Runs r rec now ((==_iff rec.shard_id s.self_id).0 own))
      (λ other.
        Runs-if (contains rec.shard_id s.members)
          (λ known. maybe_apply_peer_delta-Runs r rec now known other)
          (λ unknown.
            Runs-if (admit s rec) (λ fit. Runs-modify _ (Reached-learn now rec r unknown fit other))
              (λ foreign. Runs-pure tt r))))

-- From a well-formed state every message is handled without an error, by steps of the protocol.
pub recv-Runs :
    {o s : MembershipState} (msg : IncomingMessage) (now : ℕ)
    → Reached o s
    → Runs (λ _. Reached o) (recv msg now) s
unfolding recv handle_delta
recv-Runs (ping msg) now r = handle_ping-Runs r msg now
recv-Runs (ack msg) now r = handle_ack-Runs r msg now
recv-Runs (ping_req msg) now r = handle_pingreq-Runs r msg now
recv-Runs (ping_req_ack msg) now r = handle_pingreqack-Runs r msg now
recv-Runs (join msg) now r = handle_join-Runs r msg now
recv-Runs {s = s} (membership_delta msg) now r =
    Runs-bind (Runs-for_each msg.members (install_delta-Runs now) s r) (λ _ t q. Runs-pure [] q)
