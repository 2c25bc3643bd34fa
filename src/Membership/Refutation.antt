-- ===== src/Membership/Refutation.antt =====
-- A node that hears that it is suspect or dead answers with a higher incarnation.
use model_shard.Prelude.{
  ℕ, ◌+◌, ◌≤◌, String, ◌≡◌, refl, ◌∙◌, Bool, true, Option, some, List, [], ◌∷◌, ◌==◌, not, ◌&&◌,
  ◌||◌, lookup, contains, string_eq, all, ltb, arith, inl, inr, Bool-cases,
}
use model_shard.Membership.Records.{alive, MemberRecord, PingMsg, OutgoingMessage}
use model_shard.Membership.Machine.{MembershipState, for_each, install, view}
use model_shard.Membership.Gossip.{
  is_alive, maybe_refute, apply_delta, apply_deltas, select_outgoing_deltas,
}
use model_shard.Membership.Handlers.{handle_ping, send, ack_of}
use model_shard.Membership.Spec.{
  Step, quiet, changes, refutes, Steps, here, next, IsWellFormed, Reached,
}
use model_shard.Membership.Runs.{
  Runs, Runs-pure, Runs-if, Runs-bind, Runs-gets-bind, Runs-modify, Runs-modify-bind,
  Runs-member_of-bind, Runs-some, Runs-both, Runs-weaken,
}
use model_shard.Membership.WellFormed.{Reached-start, Reached-trans}
use model_shard.Membership.Refines.Gossip.{apply_delta-Runs, maybe_promote_sender_alive-Reached}
use model_shard.Membership.Safety.{own_record}

-- The identity stands, and the own incarnation does not go back.
record Advances (s t : MembershipState) : Type 0 where
  same_id : t.self_id ≡ s.self_id
  not_back : s.self_incarnation ≤ t.self_incarnation

install-Advances :
    {s t : MembershipState} (k : String) (new : MemberRecord) (now : ℕ)
    → Advances s t
    → (old : Option _) → Advances s (install k old new now t)
unfolding install
install-Advances k new now h old = record { same_id = h.same_id; not_back = h.not_back }

Step-Advances : {s t u : MembershipState} → Advances s t → Step t u → Advances s u
Step-Advances h (quiet q) = record {
  same_id = q.self_id ∙ h.same_id;
  not_back = rw q.self_incarnation h.not_back;
}
Step-Advances h (changes now k new c e) = rw e (install-Advances k new now h _)
Step-Advances {t = t} h (refutes now d prev found about down fresh e) = rw e (
    install-Advances {t = record t { self_incarnation = d.incarnation + 1 }} _ _ now
      (record { same_id = h.same_id; not_back = ground (arith, h.not_back) }) _)

Steps-Advances : {s t : MembershipState} → Steps s t → Advances s t
Steps-Advances here = record { same_id = refl; not_back = omega arith }
Steps-Advances (next r st) = Step-Advances (Steps-Advances r) st

-- Gossip that calls the node `id` suspect or dead.
abbrev pub accuses : String → MemberRecord → Bool
accuses id d = d.shard_id == id && not (is_alive d.state)

-- It is no accusation, or the incarnation `n` is above it.
abbrev pub is_answered : String → ℕ → MemberRecord → Bool
is_answered id n d = not (accuses id d) || ltb d.incarnation n

maybe_refute-answers :
    (d : MemberRecord) (now : ℕ) (s : MembershipState)
    → IsWellFormed s
    → Runs (λ _ t. is_answered s.self_id t.self_incarnation d ≡ true) (maybe_refute d now) s
unfolding maybe_refute install
maybe_refute-answers d now s w =
    let (own, found) = own_record w in
    Runs-gets-bind _ _ (
      Runs-if (is_alive d.state || ltb d.incarnation s.self_incarnation)
        (λ calm. Runs-pure tt (ground arith))
        (λ claim.
          Runs-modify-bind _ _
            (Runs-member_of-bind s.self_id own _ found (Runs-modify _ (ground arith)))))

apply_own-answers :
    (d : MemberRecord) (now : ℕ) (s : MembershipState)
    → IsWellFormed s
    → (d.shard_id == s.self_id) ≡ true
    → Runs (λ _ t. is_answered s.self_id t.self_incarnation d ≡ true) (apply_delta now d) s
unfolding apply_delta
apply_own-answers d now s w own =
    Runs-gets-bind _ _
      (Runs-if (d.shard_id == s.self_id) (λ _. maybe_refute-answers d now s w) (λ other. cc))

apply_delta-answers :
    (d : MemberRecord) (now : ℕ) (s : MembershipState)
    → Reached s s
    → Runs (λ _ t. is_answered s.self_id t.self_incarnation d ≡ true) (apply_delta now d) s
apply_delta-answers d now s q = elim (Bool-cases (d.shard_id == s.self_id)) [
  | inl own ↦ apply_own-answers d now s q.well own
  | inr other ↦ Runs-weaken (apply_delta-Runs now d s q) (λ _ t h. rw other refl)
]

all-answered_mono :
    (id : String) (n m : ℕ) (ds : List MemberRecord)
    → n ≤ m
    → all (is_answered id n) ds ≡ true
    → all (is_answered id m) ds ≡ true
all-answered_mono id n m [] le h = refl
all-answered_mono id n m (d ∷ ds) le h = ground (arith, all-answered_mono id n m ds le)

for_each-answers :
    (id : String) (now : ℕ) (ds : List MemberRecord) (s : MembershipState)
    → Reached s s
    → s.self_id ≡ id
    → Runs
        (λ _ t. Reached s t × (all (is_answered id t.self_incarnation) ds ≡ true))
        (for_each ds (apply_delta now))
        s
unfolding for_each
for_each-answers id now [] s q e = Runs-pure tt (q, refl)
for_each-answers id now (d ∷ ds) s q e =
    Runs-bind (Runs-both (apply_delta-Runs now d s q) (apply_delta-answers d now s q)) λ _ t h.
      let same : t.self_id ≡ id = (Steps-Advances h.0.steps).same_id ∙ e in
      Runs-weaken (for_each-answers id now ds t (Reached-start h.0) same) λ _ u g.
        let answered : is_answered id t.self_incarnation d ≡ true = rw e at h.1 in
        let le = (Steps-Advances g.0.steps).not_back in
        (Reached-trans h.0 g.0, ground (arith, answered, le, g.1))

-- What is sent begins with the own record, which is alive.
abbrev pub LeadsAlive : List MemberRecord → MembershipState → Type 0
LeadsAlive deltas t =
    (own : MemberRecord) × (rest : List MemberRecord) × (deltas ≡ own ∷ rest)
    × (lookup t.self_id (view t) ≡ some own)
    × (own.state ≡ alive)

select_outgoing_deltas-LeadsAlive :
    (s : MembershipState)
    → IsWellFormed s
    → Runs
        (λ deltas t.
          LeadsAlive deltas t × (t.self_id ≡ s.self_id) × (t.self_incarnation ≡ s.self_incarnation))
        select_outgoing_deltas
        s
unfolding select_outgoing_deltas view
select_outgoing_deltas-LeadsAlive s w =
    let (own, found) = own_record w in
    let up : own.state ≡ alive = ground (arith, w.own_alive) in
    Runs-gets-bind _ _ (
      Runs-member_of-bind s.self_id own _ found
        (Runs-modify-bind _ _ (Runs-pure _ ((own, _, refl, found, up), refl, refl))))

-- The one acknowledgement that answers `msg`.
abbrev pub Answers : String → PingMsg → List OutgoingMessage → MembershipState → Type 0
Answers id msg out t =
    (deltas : List MemberRecord) × (out ≡ send msg.from_shard_id (ack_of t deltas) ∷ [])
    × LeadsAlive deltas t
    × (all (is_answered id t.self_incarnation) msg.deltas ≡ true)

handle_ping-Runs :
    (msg : PingMsg) (now : ℕ) (s : MembershipState)
    → Reached s s
    → contains msg.from_shard_id s.members ≡ true
    → Runs (Answers s.self_id msg) (handle_ping msg now) s
unfolding handle_ping apply_deltas
handle_ping-Runs msg now s r known = Runs-gets-bind _ _ (
    Runs-if (not (contains msg.from_shard_id s.members)) (λ unknown. cc)
      (λ _.
        let sender =
          maybe_promote_sender_alive-Reached r msg.from_shard_id msg.from_incarnation now in
        Runs-modify-bind _ _ (
          Runs-bind
            (for_each-answers s.self_id now msg.deltas _ (Reached-start sender)
              (Steps-Advances sender.steps).same_id)
            (λ _ u h.
              Runs-bind (select_outgoing_deltas-LeadsAlive u h.0.well)
                (λ deltas t g. Runs-gets-bind _ _ (Runs-pure _ (deltas, refl, g.0, rw g.2 h.1)))))))

-- A ping from a known member is answered with one acknowledgement to it, without error. Its deltas
-- begin with the node's own record, alive, and the incarnation that it carries is higher than that of
-- every delta of the ping that called the node suspect or dead.
pub handle_ping-answers :
    (msg : PingMsg) (now : ℕ) (s : MembershipState)
    → IsWellFormed s
    → contains msg.from_shard_id s.members ≡ true
    → (t : MembershipState) × (deltas : List MemberRecord) × (handle_ping msg now s
        ≡ some (send msg.from_shard_id (ack_of t deltas) ∷ [], t))
      × LeadsAlive deltas t
      × (all (is_answered s.self_id t.self_incarnation) msg.deltas ≡ true)
handle_ping-answers msg now s w known =
    let (out, t, ran, (deltas, sent, leads, answered)) =
      Runs-some (handle_ping msg now) s
        (handle_ping-Runs msg now s (record { well = w; steps = here }) known) in
    (t, deltas, rw sent at ran, leads, answered)
