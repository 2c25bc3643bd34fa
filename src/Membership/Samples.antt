-- ===== src/Membership/Samples.antt =====
-- A node "a" with two peers, and small runs of it.
mod Failure
use mathlib.Core.List.Perm
use mathlib.Core.List.{Perm}
use model_shard.Prelude.{
  ℕ, String, ◌≡◌, ◌≢◌, refl, true, Option, none, some, List, [], ◌∷◌, elem, elem_head, string_eq,
  All, lookup, insert, contains,
}
use model_shard.Membership.Records.{
  default_config, MemberState, alive, suspect, dead, MemberRecord, IncomingMessage, PingMsg, ping,
  OutgoingMessage,
}
use model_shard.Membership.Machine.{
  PeerSpec, MembershipState, blank, init, view, changes_since, transition_watermark, install, ◌>>=◌,
}
use model_shard.Membership.Gossip.{apply_deltas}
use model_shard.Membership.Tick.{Rng}
use model_shard.Membership.Spec.{Steps, IsWellFormed, is_peer}
use model_shard.Membership.Events.{Event, ticked, received, serve}
use model_shard.Membership.Safety.{blank-IsWellFormed, serve-Implements}
use model_shard.Membership.Replay.{Explains, changes_since-Explains}
use model_shard.Membership.Admission.{serve-IsUniform, blank-IsUniform}
use model_shard.Membership.Merge.{rank_of, counts, highest, verdict}
use model_shard.Membership.Merge.Converge.{apply_deltas-highest, AgreesOn, apply_deltas-converges}

abbrev pub first_choice : ℕ → List String → String × ℕ
first_choice g [] = ("", g)
first_choice g (x ∷ xs) = (x, g)

pub first_choice-elem : (g : ℕ) (xs : List String) → xs ≢ [] → elem (first_choice g xs).0 xs ≡ true
first_choice-elem g [] h = absurd (h refl)
first_choice-elem g (x ∷ xs) h = elem_head x xs

-- The generator that always takes the first, and never reorders.
abbrev pub in_order : Rng
in_order = record {
  choice = first_choice;
  shuffle = λ g xs. (xs, g);
  choice_elem = first_choice-elem;
  shuffle_elem = λ g xs x. refl;
}

abbrev pub spec_of : String → ℕ → PeerSpec
spec_of name port = record { shard_id = name; host = "localhost"; udp_port = port }

abbrev pub peers : List PeerSpec
peers = spec_of "b" 6002 ∷ spec_of "c" 6003 ∷ []

abbrev pub start : MembershipState
start = blank (spec_of "a" 6001) peers 0 default_config "gemma" 0

abbrev pub record_of : String → MemberState → ℕ → MemberRecord
record_of name state incarnation = record {
  shard_id = name;
  host = "localhost";
  udp_port = 6000;
  state = state;
  incarnation = incarnation;
  model_id = "gemma";
  last_state_change = 0;
  suspect_deadline = none;
}

-- "b" believes that "a" is suspect, and that "c" is dead.
abbrev pub rumours : List MemberRecord
rumours = record_of "a" suspect 0 ∷ record_of "c" dead 0 ∷ record_of "c" alive 1 ∷ []

abbrev rumours_reversed : List MemberRecord
rumours_reversed = record_of "a" suspect 0 ∷ record_of "c" alive 1 ∷ record_of "c" dead 0 ∷ []

abbrev pub rumour : PingMsg
rumour = record {
  from_shard_id = "b";
  from_incarnation = 0;
  deltas = rumours;
  loads = [];
  heat = [];
  ownership = [];
}

abbrev pub rumour_ping : IncomingMessage
rumour_ping = ping rumour

abbrev pub events : List Event
events = received rumour_ping 100 ∷ ticked 1000 ∷ ticked 1600 ∷ []

abbrev pub run_of :
    {A : Type 0} → A → MembershipState → Option (A × MembershipState) → A × MembershipState
run_of a s none = (a, s)
run_of a s (some x) = x

abbrev pub final : List OutgoingMessage × MembershipState
final = run_of [] start (serve in_order events start)

program : Unit {0}
unfolding serve blank install lookup insert contains ◌>>=◌
program = tt

ran : serve in_order events start ≡ some (final.0, final.1)
unfolding program
ran = refl

pub start-IsWellFormed : IsWellFormed start
start-IsWellFormed = blank-IsWellFormed (spec_of "a" 6001) peers 0 default_config "gemma" 0

serve-Implements_example :
    (s : MembershipState) × (out : List OutgoingMessage) × (t : MembershipState) × (init
        (spec_of "a" 6001)
        peers
        0
        default_config
        "gemma"
        7
      ≡ some s)
    × (serve in_order events s ≡ some (out, t))
    × IsWellFormed t
    × Steps s t
serve-Implements_example =
    serve-Implements (spec_of "a" 6001) peers 0 default_config "gemma" 7 in_order events

changes_since-Explains_example :
    Explains (changes_since (transition_watermark start) final.1) (view start) (view final.1)
changes_since-Explains_example =
    changes_since-Explains in_order events start final.1 final.0 start-IsWellFormed ran

serve-IsUniform_example : All (λ e. e.1.model_id ≡ "gemma") (view final.1)
serve-IsUniform_example =
    serve-IsUniform "gemma" refl in_order events start final.1 final.0 start-IsWellFormed
      (blank-IsUniform (spec_of "a" 6001) peers 0 default_config "gemma" 0) ran

c_is_peer : is_peer start "c" ≡ true
unfolding program
c_is_peer = refl

apply_deltas-highest_example :
    (t : MembershipState) × (apply_deltas rumours 100 start ≡ some (tt, t))
    × (rank_of (lookup "c" (view t))
        ≡ highest (counts start "c") (rank_of (lookup "c" (view start))) rumours)
apply_deltas-highest_example =
    apply_deltas-highest "c" start start-IsWellFormed c_is_peer rumours 100

start-AgreesOn : AgreesOn "c" start start
start-AgreesOn = record {
  well = start-IsWellFormed;
  well' = start-IsWellFormed;
  peer = c_is_peer;
  peer' = c_is_peer;
  model = refl;
  same = refl;
}

rumours-perm : Perm rumours rumours_reversed
rumours-perm = Perm.cons (record_of "a" suspect 0) (Perm.swap _ _ _)

apply_deltas-converges_example :
    (t : MembershipState) × (t' : MembershipState) × (apply_deltas rumours 100 start ≡ some (tt, t))
    × (apply_deltas rumours_reversed 250 start ≡ some (tt, t'))
    × (verdict (lookup "c" (view t)) ≡ verdict (lookup "c" (view t')))
apply_deltas-converges_example =
    apply_deltas-converges "c" start start rumours rumours_reversed 100 250 start-AgreesOn
      rumours-perm
