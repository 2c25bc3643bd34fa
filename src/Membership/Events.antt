-- ===== src/Membership/Events.antt =====
-- The calls that the runner's thread makes of the state machine (src/model_shard/membership/runner.py,
-- `_run`): a tick, then a `recv` for each message in the inbox, over and over.
use model_shard.Prelude.{ℕ, List, [], ◌∷◌, ◌++◌}
use model_shard.Membership.Records.{IncomingMessage, OutgoingMessage}
use model_shard.Membership.Machine.{MembershipState, M, pure, ◌>>=◌}
use model_shard.Membership.Handlers.{recv}
use model_shard.Membership.Tick.{Rng, tick}
use model_shard.Membership.Spec.{Reached}
use model_shard.Membership.Runs.{Runs, Runs-pure, Runs-bind}
use model_shard.Membership.Refines.Handlers.{recv-Runs}
use model_shard.Membership.Refines.Tick.{tick-Runs}

pub data Event : Type 0 where
  ticked : ℕ → Event
  received : IncomingMessage → ℕ → Event

unfoldable pub handle : Rng → Event → M (List OutgoingMessage)
unfolding tick recv
handle r (ticked now) = tick r now
handle r (received msg now) = recv msg now

-- All that the calls send, in order.
unfoldable pub serve : Rng → List Event → M (List OutgoingMessage)
unfolding handle
serve r [] = pure []
serve r (e ∷ es) = do out ← handle r e; rest ← serve r es; pure (out ++ rest)

pub handle-Runs :
    (r : Rng) {o s : MembershipState} (e : Event)
    → Reached o s
    → Runs (λ _. Reached o) (handle r e) s
unfolding handle
handle-Runs r (ticked now) q = tick-Runs r now q
handle-Runs r (received msg now) q = recv-Runs msg now q

pub serve-Runs :
    (r : Rng) {o s : MembershipState} (es : List Event)
    → Reached o s
    → Runs (λ _. Reached o) (serve r es) s
unfolding serve
serve-Runs r [] q = Runs-pure [] q
serve-Runs r (e ∷ es) q =
    Runs-bind (handle-Runs r e q)
      (λ out t q₁. Runs-bind (serve-Runs r es q₁) (λ rest u q₂. Runs-pure _ q₂))
