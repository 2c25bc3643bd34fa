-- ===== src/Runner/Loop.antt =====
-- `MembershipRunner`: what arrives is scraped and queued (`_on_recv_decoded`), and the thread's loop
-- (`_run`) ticks, handles the queue, adds the piggyback and sends. The calls of observers and of the
-- sources of the reports are given by their results; locks are left out, each method being one step.
use model_shard.Prelude.{
  ℕ, ◌+◌, String, Option, none, some, List, [], ◌∷◌, ◌++◌, Dict, lookup, insert, ltb, length,
  if◌then◌else◌, string_eq,
}
use model_shard.Membership.Records.{
  LoadReportRecord, HeatReportRecord, OwnershipDeltaRecord, StateTransition, IncomingMessage, ping,
  ack, ping_req, ping_req_ack, OutgoingMessage, SwimConfig,
}
use model_shard.Membership.Machine.{
  PeerSpec, MembershipState, init, changes_since, transition_watermark,
}
use model_shard.Membership.Tick.{Rng}
use model_shard.Membership.Events.{Event, ticked, received, serve}
use model_shard.Wire.Envelope.{Protobuf, encode_membership_envelope}
use model_shard.Runner.Ownership.{
  OwnershipView, scrape, Outbox, drain_outbound_ownership, announce_ownership_add,
  announce_ownership_remove,
}

-- (host, port)
abbrev pub Address : Type 0
Address = String × ℕ

pub record MembershipRunner : Type 0 where
  pub self_id : String
  pub state : MembershipState
  pub addr_by_id : Dict String Address
  pub inbox : List IncomingMessage
  pub watermark : ℕ
  pub peer_loads : Dict String LoadReportRecord
  pub peer_heat : Dict String HeatReportRecord
  pub outbound_ownership : Outbox
  pub ownership : OwnershipView

abbrev pub internal_queue_max : ℕ
internal_queue_max = 4096

abbrev pub default_ownership_ttl : ℕ
default_ownership_ttl = 5

abbrev pub addresses : List PeerSpec → Dict String Address → Dict String Address
addresses [] d = d
addresses (p ∷ ps) d = addresses ps (insert p.shard_id (p.host, p.udp_port) d)

abbrev pub fresh : PeerSpec → List PeerSpec → MembershipState → MembershipRunner
fresh self_spec peers state = record {
  self_id = self_spec.shard_id;
  state = state;
  addr_by_id = addresses peers (insert self_spec.shard_id (self_spec.host, self_spec.udp_port) []);
  inbox = [];
  watermark = 0;
  peer_loads = [];
  peer_heat = [];
  outbound_ownership = [];
  ownership = [];
}

-- `__init__`; `seconds` is int(time.time()), the incarnation that a restarted node begins with.
unfoldable pub new_runner :
    PeerSpec → List PeerSpec → SwimConfig → ℕ → String → ℕ → Option MembershipRunner
unfolding init
new_runner self_spec peers config rng local_model_id seconds =
    elim (init self_spec peers rng config local_model_id seconds) [
      | none ↦ none
      | some state ↦ some (fresh self_spec peers state)
    ]

abbrev pub loads_of : IncomingMessage → List LoadReportRecord
loads_of (ping m) = m.loads
loads_of (ack m) = m.loads
loads_of (ping_req m) = m.loads
loads_of (ping_req_ack m) = m.loads
loads_of m = []

abbrev pub heat_of : IncomingMessage → List HeatReportRecord
heat_of (ping m) = m.heat
heat_of (ack m) = m.heat
heat_of (ping_req m) = m.heat
heat_of (ping_req_ack m) = m.heat
heat_of m = []

abbrev pub ownership_of : IncomingMessage → List OwnershipDeltaRecord
ownership_of (ping m) = m.ownership
ownership_of (ack m) = m.ownership
ownership_of (ping_req m) = m.ownership
ownership_of (ping_req_ack m) = m.ownership
ownership_of m = []

abbrev note_loads :
    List LoadReportRecord → Dict String LoadReportRecord → Dict String LoadReportRecord
note_loads [] d = d
note_loads (r ∷ rs) d = note_loads rs (insert r.shard_id r d)

abbrev note_heat :
    List HeatReportRecord → Dict String HeatReportRecord → Dict String HeatReportRecord
note_heat [] d = d
note_heat (r ∷ rs) d = note_heat rs (insert r.shard_id r d)

-- put_nowait: a message that does not fit is dropped.
abbrev pub enqueue : IncomingMessage → List IncomingMessage → List IncomingMessage
enqueue msg inbox = if ltb (length inbox) internal_queue_max then inbox ++ msg ∷ [] else inbox

-- The second result is what the ownership observers are called with.
unfoldable pub on_recv_decoded :
    IncomingMessage → MembershipRunner → MembershipRunner × List OwnershipDeltaRecord
unfolding scrape
on_recv_decoded msg runner =
    let (view, applied) = scrape (ownership_of msg) runner.ownership in
    (
      record runner {
        inbox = enqueue msg runner.inbox;
        peer_loads = note_loads (loads_of msg) runner.peer_loads;
        peer_heat = note_heat (heat_of msg) runner.peer_heat;
        ownership = view;
      },
      applied,
    )

unfoldable pub announce_add : ℕ → ℕ → ℕ → MembershipRunner → MembershipRunner
unfolding announce_ownership_add
announce_add layer_idx expert_id now runner =
    let after =
      announce_ownership_add runner.self_id layer_idx expert_id default_ownership_ttl now
        (runner.outbound_ownership, runner.ownership) in
    record runner { outbound_ownership = after.0; ownership = after.1 }

unfoldable pub announce_remove : ℕ → ℕ → ℕ → MembershipRunner → MembershipRunner
unfolding announce_ownership_remove
announce_remove layer_idx expert_id now runner =
    let after =
      announce_ownership_remove runner.self_id layer_idx expert_id default_ownership_ttl now
        (runner.outbound_ownership, runner.ownership) in
    record runner { outbound_ownership = after.0; ownership = after.1 }

abbrev with_report {ℓ} : {A : Type ℓ} → List A → Option A → List A
with_report reports none = reports
with_report reports (some report) = reports ++ report ∷ []

-- dataclasses.replace(p, loads=..., heat=..., ownership=...), for the four messages that carry them.
abbrev pub fuse :
    Option LoadReportRecord
    → Option HeatReportRecord
    → List OwnershipDeltaRecord
    → IncomingMessage
    → IncomingMessage
fuse load heat batch (ping m) = ping (record m {
  loads = with_report m.loads load;
  heat = with_report m.heat heat;
  ownership = m.ownership ++ batch;
})
fuse load heat batch (ack m) = ack (record m {
  loads = with_report m.loads load;
  heat = with_report m.heat heat;
  ownership = m.ownership ++ batch;
})
fuse load heat batch (ping_req m) = ping_req (record m {
  loads = with_report m.loads load;
  heat = with_report m.heat heat;
  ownership = m.ownership ++ batch;
})
fuse load heat batch (ping_req_ack m) = ping_req_ack (record m {
  loads = with_report m.loads load;
  heat = with_report m.heat heat;
  ownership = m.ownership ++ batch;
})
fuse load heat batch m = m

-- if any_piggyback: ... else outgoing, which is the same since nothing would be added.
abbrev pub fuse_all :
    Option LoadReportRecord
    → Option HeatReportRecord
    → List OwnershipDeltaRecord
    → List OutgoingMessage
    → List OutgoingMessage
fuse_all load heat batch [] = []
fuse_all load heat batch (o ∷ os) =
    record o { payload = fuse load heat batch o.payload } ∷ fuse_all load heat batch os

-- What goes to the transport: all messages, or those before one that cannot be encoded, and that one.
pub data Sending (Raw : Type 0) : Type 0 where
  all_sent : List (Address × Raw) → Sending Raw
  unencodable : List (Address × Raw) → IncomingMessage → Sending Raw

-- The batch of `_drain_outbound_ownership() if outgoing else []`, and what is left.
unfoldable pub batch_of : List OutgoingMessage → Outbox → List OwnershipDeltaRecord × Outbox
unfolding drain_outbound_ownership
batch_of [] outbox = ([], outbox)
batch_of (o ∷ os) outbox = drain_outbound_ownership outbox

-- The i-th message of the queue is handled at the time `clock i`.
abbrev pub stamped : (ℕ → ℕ) → ℕ → List IncomingMessage → List Event
stamped clock i [] = []
stamped clock i (msg ∷ msgs) = received msg (clock i) ∷ stamped clock (i + 1) msgs

-- What happens to a runner: a message comes, the node announces that it holds an expert or no longer
-- holds it, or the thread goes round.
pub data Action : Type 0 where
  arrives : IncomingMessage → Action
  adds : ℕ → ℕ → ℕ → Action
  removes : ℕ → ℕ → ℕ → Action
  goes_round : (ℕ → ℕ) → ℕ → Option LoadReportRecord → Option HeatReportRecord → Action

-- How a round ends, unless a call of the state machine raises: what is sent, with what transitions the
-- observers are called, and the runner then; or the thread ends with the exception of
-- encode_membership_envelope for that message.
pub data Round (Raw : Type 0) : Type 0 where
  went_round : List (Address × Raw) → List StateTransition → MembershipRunner → Round Raw
  thread_ends : List (Address × Raw) → IncomingMessage → MembershipRunner → Round Raw

-- What actions come to: the transitions that the observers are called with, and the runner then; or a
-- KeyError of the state machine; or the end of the thread with the message that is not encoded.
pub data Acted : Type 0 where
  acted : List StateTransition → MembershipRunner → Acted
  key_error : Acted
  thread_ended : IncomingMessage → MembershipRunner → Acted

abbrev pub after_first : List StateTransition → Acted → Acted
after_first fired (acted more runner) = acted (fired ++ more) runner
after_first fired key_error = key_error
after_first fired (thread_ended msg runner) = thread_ended msg runner

-- What follows is done only while the thread lives.
abbrev pub followed : Acted → (MembershipRunner → Acted) → Acted
followed (acted fired runner) more = after_first fired (more runner)
followed key_error more = key_error
followed (thread_ended msg runner) more = thread_ended msg runner

module _ {Other Raw : Type 0} (p : Protobuf Other Raw) where
  abbrev pub before : Address × Raw → Sending Raw → Sending Raw
  before first (all_sent sent) = all_sent (first ∷ sent)
  before first (unencodable sent msg) = unencodable (first ∷ sent) msg

  abbrev pub encoded : Address → IncomingMessage → Option Raw → Sending Raw → Sending Raw
  encoded addr payload none rest = unencodable [] payload
  encoded addr payload (some raw) rest = before (addr, raw) rest

  abbrev pub addressed : Option Address → IncomingMessage → Sending Raw → Sending Raw
  addressed none payload rest = rest
  addressed (some addr) payload rest =
      encoded addr payload (encode_membership_envelope p payload) rest

  -- A message for a shard without an address is dropped.
  abbrev pub dispatch : Dict String Address → List OutgoingMessage → Sending Raw
  dispatch addr_by_id [] = all_sent []
  dispatch addr_by_id (o ∷ os) =
      addressed (lookup o.target_shard_id addr_by_id) o.payload (dispatch addr_by_id os)

  -- What follows the sending: the observers are told, unless the thread has ended.
  abbrev pub told : ℕ → MembershipRunner → Sending Raw → Round Raw
  told watermark runner (all_sent sent) =
      went_round sent (changes_since watermark runner.state)
        (record runner { watermark = transition_watermark runner.state })
  told watermark runner (unencodable sent msg) = thread_ends sent msg runner

  unfoldable pub round_of :
      Option LoadReportRecord
      → Option HeatReportRecord
      → MembershipRunner
      → List OutgoingMessage
      → MembershipState
      → Round Raw
  unfolding changes_since transition_watermark batch_of
  round_of my_load my_heat runner outgoing state =
      let (batch, left) = batch_of outgoing runner.outbound_ownership in
      told runner.watermark (record runner { state = state; inbox = []; outbound_ownership = left })
        (dispatch runner.addr_by_id (fuse_all my_load my_heat batch outgoing))

  -- One round, none when a call of the state machine raises.
  unfoldable pub run_once :
      Rng
      → (ℕ → ℕ)
      → ℕ
      → Option LoadReportRecord
      → Option HeatReportRecord
      → MembershipRunner
      → Option (Round Raw)
  unfolding serve round_of
  run_once r clock now my_load my_heat runner =
      elim (serve r (ticked now ∷ stamped clock 0 runner.inbox) runner.state) [
        | none ↦ none
        | some (outgoing, state) ↦ some (round_of my_load my_heat runner outgoing state)
      ]

  abbrev pub acted_as : Option (Round Raw) → Acted
  acted_as none = key_error
  acted_as (some (went_round sent fired runner)) = acted fired runner
  acted_as (some (thread_ends sent msg runner)) = thread_ended msg runner

  unfoldable pub act : Rng → Action → MembershipRunner → Acted
  unfolding on_recv_decoded announce_add announce_remove run_once
  act r (arrives msg) runner = acted [] (on_recv_decoded msg runner).0
  act r (adds layer_idx expert_id now) runner =
      acted [] (announce_add layer_idx expert_id now runner)
  act r (removes layer_idx expert_id now) runner =
      acted [] (announce_remove layer_idx expert_id now runner)
  act r (goes_round clock now load heat) runner = acted_as (run_once r clock now load heat runner)

  unfoldable pub act_all : Rng → List Action → MembershipRunner → Acted
  unfolding act
  act_all r [] runner = acted [] runner
  act_all r (a ∷ more) runner = followed (act r a runner) (act_all r more)
