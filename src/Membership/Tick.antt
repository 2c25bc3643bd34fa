-- ===== src/Membership/Tick.antt =====
-- `tick` of src/model_shard/membership/state.py: the help timeouts, the promotion of suspects to
-- dead, the protocol period and the escalation of a probe. The random generator is a parameter.
use Prim.Native.Nat.{◌/◌, ◌%◌}
use Prim.Native.String.{◌++◌ as str_append}
use model_shard.Prelude.{
  ℕ, zero, suc, ◌+◌, String, Option, none, some, List, [], ◌∷◌, ◌++◌, Bool, true, false, ◌&&◌, not,
  ◌≡◌, ◌≢◌, ◌==◌, elem, string_eq, values, filter, map, if◌then◌else◌, take, ltb, leb,
}
use model_shard.Membership.Records.{suspect, dead, MemberRecord, ping_req, OutgoingMessage}
use model_shard.Membership.Machine.{
  PendingHelp, PendingProbe, MembershipState, M, pure, gets, modify, ◌>>◌, install, ◌>>=◌,
}
use model_shard.Membership.Gossip.{
  is_alive, is_suspect, mark_suspect, gc_backlog, select_outgoing_deltas,
}
use model_shard.Membership.Handlers.{send, ping_of, answer_helps, resolve_helps}

-- Python's `random.Random`: each draw takes the generator's state and gives the next one. `choice`
-- returns an element of a list that is not empty; `shuffle` brings in no element and keeps each.
pub record Rng : Type 0 where
  pub choice : ℕ → List String → String × ℕ
  pub shuffle : ℕ → List String → List String × ℕ
  pub choice_elem : (g : ℕ) (xs : List String) → xs ≢ [] → elem (choice g xs).0 xs ≡ true
  pub shuffle_elem : (g : ℕ) (xs : List String) (x : String) → elem x (shuffle g xs).0 ≡ elem x xs

-- The digits of `str(n)`.
digit : ℕ → String
digit n =
    if leb n 4
    then (if leb n 1
        then (if leb n 0 then "0" else "1")
        else if leb n 2
        then "2"
        else if leb n 3
        then "3"
        else "4")
    else if leb n 6
    then (if leb n 5 then "5" else "6")
    else if leb n 7
    then "7"
    else if leb n 8
    then "8"
    else "9"

-- `str(n)`, with one round of fuel for each digit; a number has at most as many digits as its value
-- and one more.
decimal_digits : ℕ → ℕ → String
unfolding digit
decimal_digits zero n = ""
decimal_digits (suc fuel) n =
    let more = decimal_digits fuel (n / 10) in
    if ltb n 10 then digit n else str_append more (digit (n % 10))

unfoldable pub decimal : ℕ → String
unfolding decimal_digits
decimal n = decimal_digits (suc n) n

abbrev pub overdue : MembershipState → ℕ → PendingHelp → Bool
overdue s now h = leb (h.sent_at + s.cfg.t_timeout_ms) now

unfoldable pub maybe_timeout_helps : ℕ → M (List OutgoingMessage)
unfolding answer_helps
maybe_timeout_helps now = do s ← gets (λ s. s); resolve_helps (overdue s now) false

abbrev pub expired : MemberRecord → ℕ → Bool
expired rec now =
    is_suspect rec.state && elim rec.suspect_deadline [ none ↦ false | some t ↦ leb t now ]

abbrev pub buried_record : String → MemberRecord → ℕ → MemberRecord
buried_record shard_id rec now = record rec {
  shard_id = shard_id;
  state = dead;
  last_state_change = now;
  suspect_deadline = none;
}

unfoldable pub promote_one : ℕ → String → MemberRecord → MembershipState → MembershipState
promote_one now shard_id rec s =
    if expired rec now
    then install shard_id (some suspect) (buried_record shard_id rec now) now s
    else s

-- The loop over the snapshot `list(self._members.items())`.
unfoldable pub promote_each : List (String × MemberRecord) → ℕ → MembershipState → MembershipState
unfolding promote_one
promote_each [] now s = s
promote_each ((shard_id, rec) ∷ rest) now s = promote_each rest now (promote_one now shard_id rec s)

unfoldable pub maybe_promote_dead : ℕ → MembershipState → MembershipState
unfolding promote_each
maybe_promote_dead now s = promote_each s.members now s

-- The ids of the members that are alive and that `keep` admits, in the order of the dict.
abbrev pub alive_ids : (String → Bool) → MembershipState → List String
alive_ids keep s =
    map (λ r. r.shard_id) (filter (λ r. keep r.shard_id && is_alive r.state) (values s.members))

abbrev pub not_self : MembershipState → String → Bool
not_self s k = not (k == s.self_id)

abbrev pub helper_of : MembershipState → PendingProbe → String → Bool
helper_of s probe k = not_self s k && not (k == probe.target_id)

-- A probe whose indirect phase ended without a positive answer.
abbrev pub unconfirmed : Option PendingProbe → Option String
unconfirmed none = none
unconfirmed (some probe) = elim probe.indirect_sent_at [
  | none ↦ none
  | some t ↦ if probe.indirect_success_seen then none else some probe.target_id
]

unfoldable pub suspect_unconfirmed : Option String → ℕ → M (Unit {0})
unfolding mark_suspect
suspect_unconfirmed none now = pure tt
suspect_unconfirmed (some target) now = mark_suspect target now

-- A probe that is still direct and whose acknowledgement is overdue.
abbrev pub late : MembershipState → PendingProbe → ℕ → Bool
late s probe now = elim probe.indirect_sent_at [
  | none ↦ leb (probe.sent_at + s.cfg.t_timeout_ms) now
  | some t ↦ false
]

module _ (r : Rng) where
  abbrev pub choose : List String → M String
  choose xs s = some ((r.choice s.rng xs).0, record s { rng = (r.choice s.rng xs).1 })

  abbrev pub shuffled : List String → M (List String)
  shuffled xs s = some ((r.shuffle s.rng xs).0, record s { rng = (r.shuffle s.rng xs).1 })

  -- The probe of a chosen target.
  unfoldable pub send_probe : String → ℕ → M (List OutgoingMessage)
  unfolding select_outgoing_deltas decimal
  send_probe target now = do
    modify (λ s. record s { probe_counter = s.probe_counter + 1 })
    modify (λ s. record s {
      pending_probe = some (record {
        probe_id = str_append (str_append s.self_id ":") (decimal s.probe_counter);
        target_id = target;
        sent_at = now;
        indirect_sent_at = none;
        indirect_targets = [];
        indirect_acks = 0;
        indirect_success_seen = false;
      });
    })
    modify (λ s. record s { next_period_at = now + s.cfg.t_ping_ms })
    deltas ← select_outgoing_deltas
    s ← gets (λ s. s)
    pure (send target (ping_of s deltas) ∷ [])

  unfoldable pub probe_one_of : List String → ℕ → M (List OutgoingMessage)
  unfolding send_probe
  probe_one_of [] now = do
    modify (λ s. record s { next_period_at = now + s.cfg.t_ping_ms })
    pure []
  probe_one_of (c ∷ cs) now = do target ← choose (c ∷ cs); send_probe target now

  unfoldable pub start_protocol_period : ℕ → M (List OutgoingMessage)
  unfolding suspect_unconfirmed probe_one_of
  start_protocol_period now = do
    prev ← gets (λ s. s.pending_probe)
    suspect_unconfirmed (unconfirmed prev) now
    modify (λ s. record s { pending_probe = none })
    s ← gets (λ s. s)
    probe_one_of (alive_ids (not_self s) s) now

  -- A ping-req to each helper.
  unfoldable pub ask_helpers : PendingProbe → List String → M (List OutgoingMessage)
  unfolding select_outgoing_deltas
  ask_helpers probe [] = pure []
  ask_helpers probe (helper ∷ helpers) = do
    deltas ← select_outgoing_deltas
    s ← gets (λ s. s)
    rest ← ask_helpers probe helpers
    pure (
        send helper (
          ping_req (record {
            from_shard_id = s.self_id;
            target_shard_id = probe.target_id;
            probe_id = probe.probe_id;
            deltas = deltas;
            loads = [];
            heat = [];
            ownership = [];
          }))
        ∷ rest)

  -- With no helper there is nobody to wait for.
  unfoldable pub give_up_on : List String → String → ℕ → M (Unit {0})
  unfolding mark_suspect
  give_up_on [] target now =
      mark_suspect target now >> modify (λ s. record s { pending_probe = none })
  give_up_on (c ∷ cs) target now = pure tt

  unfoldable pub escalate : PendingProbe → ℕ → M (List OutgoingMessage)
  unfolding ask_helpers give_up_on
  escalate probe now = do
    s ← gets (λ s. s)
    candidates ← shuffled (alive_ids (helper_of s probe) s)
    let chosen = take s.cfg.k_indirect candidates
    out ← ask_helpers probe chosen
    modify (λ s. record s {
      pending_probe =
          some (record probe { indirect_sent_at = some now; indirect_targets = chosen });
    })
    give_up_on chosen probe.target_id now
    pure out

  unfoldable pub escalate_if_late : Option PendingProbe → ℕ → M (List OutgoingMessage)
  unfolding escalate
  escalate_if_late none now = pure []
  escalate_if_late (some probe) now = do
    s ← gets (λ s. s)
    if late s probe now then escalate probe now else pure []

  unfoldable pub maybe_escalate_probe : ℕ → M (List OutgoingMessage)
  unfolding escalate_if_late
  maybe_escalate_probe now = do probe ← gets (λ s. s.pending_probe); escalate_if_late probe now

  unfoldable pub tick : ℕ → M (List OutgoingMessage)
  unfolding gc_backlog maybe_timeout_helps maybe_promote_dead start_protocol_period
      maybe_escalate_probe
  tick now = do
    modify (gc_backlog now)
    timeouts ← maybe_timeout_helps now
    modify (maybe_promote_dead now)
    s ← gets (λ s. s)
    pings ← if leb s.next_period_at now then start_protocol_period now else pure []
    asks ← maybe_escalate_probe now
    pure (timeouts ++ pings ++ asks)
