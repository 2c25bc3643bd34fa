-- ===== src/Membership/Machine.antt =====
-- The state of `MembershipState` (src/model_shard/membership/state.py), the monad of its methods
-- and the pieces that every change of a member's record goes through.
use model_shard.Prelude.{
  ℕ, ◌+◌, String, Option, none, some, List, [], ◌∷◌, ◌++◌, Bool, ◌==◌, Dict, lookup, insert,
  string_eq, filter, not, if◌then◌else◌, length, drop, ltb,
}
use model_shard.Membership.Records.{SwimConfig, MemberState, alive, MemberRecord, StateTransition}

pub record PeerSpec : Type 0 where
  pub shard_id : String
  pub host : String
  pub udp_port : ℕ

pub record PendingHelp : Type 0 where
  pub probe_id : String
  pub target_id : String
  pub requester_id : String
  pub sent_at : ℕ

pub record PendingProbe : Type 0 where
  pub probe_id : String
  pub target_id : String
  pub sent_at : ℕ
  pub indirect_sent_at : Option ℕ
  pub indirect_targets : List String
  pub indirect_acks : ℕ
  pub indirect_success_seen : Bool

-- `member` is the source's field `record`.
pub record BacklogEntry : Type 0 where
  pub member : MemberRecord
  pub priority : ℕ
  pub enqueued_at : ℕ
  pub seq : ℕ

-- `rng` is the internal state of the `random.Random` object, a bit string, as a number.
pub record MembershipState : Type 0 where
  pub self_id : String
  pub self_incarnation : ℕ
  pub cfg : SwimConfig
  pub rng : ℕ
  pub local_model_id : String
  pub addrs : Dict String PeerSpec
  pub members : Dict String MemberRecord
  pub transitions : List StateTransition
  pub next_period_at : ℕ
  pub pending_probe : Option PendingProbe
  pub probe_counter : ℕ
  pub pending_helps : List PendingHelp
  pub backlog : List BacklogEntry
  pub backlog_seq : ℕ

-- A method that may raise `KeyError`, which is `none`: the runner's thread does not survive it, so
-- the state it leaves is not observed.
abbrev pub M : Type 0 → Type 0
M A = MembershipState → Option (A × MembershipState)

unfoldable pub gets : {A : Type 0} → (MembershipState → A) → M A
gets read s = some (read s, s)

unfoldable pub modify : (MembershipState → MembershipState) → M (Unit {0})
modify change s = some (tt, change s)

unfoldable pub pure : {A : Type 0} → A → M A
pure result s = some (result, s)

-- self._members[shard_id]
unfoldable pub member_of : String → M MemberRecord
member_of k s = elim (lookup k s.members) [ none ↦ none | some r ↦ some (r, s) ]

infixl 5 ◌>>=◌ ◌>>◌
unfoldable pub ◌>>=◌ : {A B : Type 0} → M A → (A → M B) → M B
unfolding pure gets modify member_of
◌>>=◌ first after s = elim (first s) [ none ↦ none | some (result, s') ↦ after result s' ]

abbrev pub ◌>>◌ : {B : Type 0} → M (Unit {0}) → M B → M B
first >> second = first >>= λ _. second

-- for x in xs: body(x)
unfoldable pub for_each {ℓ} : {A : Type ℓ} → List A → (A → M (Unit {0})) → M (Unit {0})
for_each [] body = pure tt
for_each (x ∷ xs) body = body x >> for_each xs body

-- What the constructor enters for one peer specification.
abbrev pub initial_record : String → ℕ → String → PeerSpec → MemberRecord
initial_record self_id initial_incarnation local_model_id p = record {
  shard_id = p.shard_id;
  host = p.host;
  udp_port = p.udp_port;
  state = alive;
  incarnation = if p.shard_id == self_id then initial_incarnation else 0;
  model_id = local_model_id;
  last_state_change = 0;
  suspect_deadline = none;
}

unfoldable pub enqueue_backlog : MemberRecord → ℕ → MembershipState → MembershipState
enqueue_backlog rec now s = record s {
  backlog =
      filter (λ b. not (b.member.shard_id == rec.shard_id)) s.backlog
      ++ record { member = rec; priority = 0; enqueued_at = now; seq = s.backlog_seq } ∷ [];
  backlog_seq = s.backlog_seq + 1;
}

-- The three statements that follow each other wherever a record changes: the assignment to
-- `_members`, the append to `_transitions` and the call of `_enqueue_backlog`.
unfoldable pub install :
    String → Option MemberState → MemberRecord → ℕ → MembershipState → MembershipState
unfolding enqueue_backlog
install k old new now s = enqueue_backlog new now (record s {
  members = insert k new s.members;
  transitions = s.transitions ++ record { shard_id = k; old_state = old; new_record = new } ∷ [];
})

unfoldable pub peer_addrs : List PeerSpec → Dict String PeerSpec → Dict String PeerSpec
peer_addrs [] d = d
peer_addrs (p ∷ ps) d = peer_addrs ps (insert p.shard_id p d)

unfoldable pub peer_records :
    (PeerSpec → MemberRecord) → List PeerSpec → Dict String MemberRecord → Dict String MemberRecord
peer_records make [] d = d
peer_records make (p ∷ ps) d = peer_records make ps (insert p.shard_id (make p) d)

-- `__init__`: the tables and counters, before the backlog is seeded.
unfoldable pub blank : PeerSpec → List PeerSpec → ℕ → SwimConfig → String → ℕ → MembershipState
unfolding peer_addrs peer_records
blank self_spec peer_specs rng config local_model_id initial_incarnation = record {
  self_id = self_spec.shard_id;
  self_incarnation = initial_incarnation;
  cfg = config;
  rng = rng;
  local_model_id = local_model_id;
  addrs = peer_addrs (self_spec ∷ peer_specs) [];
  members =
      peer_records (initial_record self_spec.shard_id initial_incarnation local_model_id)
        (self_spec ∷ peer_specs) [];
  transitions = [];
  next_period_at = config.t_ping_ms;
  pending_probe = none;
  probe_counter = 0;
  pending_helps = [];
  backlog = [];
  backlog_seq = 0;
}

-- MembershipState(self_spec, peer_specs, rng, config, local_model_id, initial_incarnation). The
-- seeding reads `_members[self_id]`, which is there.
unfoldable pub init :
    PeerSpec → List PeerSpec → ℕ → SwimConfig → String → ℕ → Option MembershipState
unfolding enqueue_backlog blank
init self_spec peer_specs rng config local_model_id initial_incarnation =
    let s = blank self_spec peer_specs rng config local_model_id initial_incarnation in
    if ltb 0 initial_incarnation
    then elim (lookup s.self_id s.members) [ none ↦ none | some r ↦ some (enqueue_backlog r 0 s) ]
    else some s

unfoldable pub view : MembershipState → Dict String MemberRecord
view s = s.members

unfoldable pub changes_since : ℕ → MembershipState → List StateTransition
changes_since watermark s = drop watermark s.transitions

unfoldable pub transition_watermark : MembershipState → ℕ
transition_watermark s = length s.transitions
