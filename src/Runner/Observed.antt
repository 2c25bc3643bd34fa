-- ===== src/Runner/Observed.antt =====
-- The observers of a runner can follow the membership while its thread lives.
use model_shard.Prelude.{◌≡◌, false, List, ◌++◌, string_eq}
use model_shard.Membership.Records.{StateTransition, IncomingMessage}
use model_shard.Membership.Machine.{MembershipState, view, transition_watermark}
use model_shard.Membership.Spec.{Reached}
use model_shard.Membership.Replay.{Explains}
use model_shard.Wire.Envelope.{Protobuf}
use model_shard.Wire.Sendable.{fits_message}
use model_shard.Runner.Loop.{
  MembershipRunner, Sending, all_sent, unencodable, before, told, Acted, acted, thread_ended,
}

-- All transitions since `o` have been told, and the state is one that the protocol leads to.
record HasTold (o : MembershipState) (told : List StateTransition) (runner : MembershipRunner)
    : Type 0 where
  reached : Reached o runner.state
  all_told : runner.state.transitions ≡ o.transitions ++ told
  marked : runner.watermark ≡ transition_watermark runner.state

-- Run from `runner`, it lives and all is told, or the thread ends over a message whose numbers do not fit.
data Tells (o : MembershipState) (before : List StateTransition) (result : Acted) : Type 0 where
  tells :
      (fired : List StateTransition) (after : MembershipRunner)
      → result ≡ acted fired after
      → HasTold o (before ++ fired) after
      → Tells o before result
  breaks :
      (msg : IncomingMessage) (after : MembershipRunner)
      → result ≡ thread_ended msg after
      → fits_message msg ≡ false
      → Tells o before result

module _ {Other Raw : Type 0} (p : Protobuf Other Raw) where
  -- Where the sending breaks off, the numbers of the message do not fit.
  BreaksOff : Sending Raw → Type 0
  BreaksOff (all_sent sent) = Unit
  BreaksOff (unencodable sent msg) = fits_message msg ≡ false

-- What a runner's life comes to: its observers can follow the view, or its thread has ended over a
-- message whose numbers do not fit the fields of protobuf. There is no other exception.
pub data IsFollowed (runner : MembershipRunner) (result : Acted) : Type 0 where
  lives :
      (fired : List StateTransition) (after : MembershipRunner)
      → result ≡ acted fired after
      → Explains fired (view runner.state) (view after.state)
      → IsFollowed runner result
  ends :
      (msg : IncomingMessage) (after : MembershipRunner)
      → result ≡ thread_ended msg after
      → fits_message msg ≡ false
      → IsFollowed runner result
