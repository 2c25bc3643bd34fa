-- ===== src/Membership/Detection.antt =====
-- Failure detection: who becomes suspect, and when a suspect becomes dead.
use model_shard.Prelude.{
  ℕ, ◌≤◌, ◌<◌, String, ◌≡◌, refl, Bool, true, false, Option, none, some, List, [], ◌∷◌, ◌==◌,
  ==_iff, lookup, lookup-insert, lookup-insert_self, not, contains, string_eq, Dict, ◌&&◌,
  HasDistinctKeys, lookup-of_entries, All, arith, inl, inr, Bool-cases, if◌then◌else◌, is_some, ◌∙◌,
  lookup-of_contains,
}
use model_shard.Membership.Records.{
  MemberState, alive, suspect, dead, MemberRecord, OutgoingMessage,
}
use model_shard.Membership.Machine.{MembershipState, PendingProbe, view, install}
use model_shard.Membership.Gossip.{is_suspect, is_alive, mark_suspect, select_outgoing_deltas}
use model_shard.Membership.Tick.{
  Rng, expired, buried_record, promote_one, promote_each, maybe_promote_dead, start_protocol_period,
  unconfirmed, suspect_unconfirmed, probe_one_of, send_probe,
}
use model_shard.Membership.Spec.{IsWellFormed, is_peer, targets_peer, Reached, here}
use model_shard.Membership.Runs.{
  Runs, Runs-pure, Runs-if, Runs-bind, Runs-gets-bind, Runs-modify, Runs-modify-bind,
  Runs-member_of-bind, Runs-some, Runs-both, Runs-weaken,
}
use model_shard.Membership.Refines.Gossip.{mark_suspect-Runs}
use model_shard.Membership.Refines.Tick.{promote_one-Agrees}
use model_shard.Membership.Safety.{own_record}

-- What a tick at `now` makes of the record of `k`.
abbrev aged : ℕ → String → Option MemberRecord → Option MemberRecord
aged now k none = none
aged now k (some r) = some (if expired r now then buried_record k r now else r)

abbrev aged_or : ℕ → String → Option MemberRecord → Option MemberRecord → Option MemberRecord
aged_or now k none other = other
aged_or now k (some r) other = aged now k (some r)

lookup-promote_one :
    (k j : String) (rec : MemberRecord) (now : ℕ) (s : MembershipState)
    → lookup j s.members ≡ some rec
    → lookup k (promote_one now j rec s).members
      ≡ (if j == k then aged now j (some rec) else lookup k s.members)
unfolding promote_one install
lookup-promote_one k j rec now s found =
    ground (arith, lookup-insert j k (buried_record j rec now) s.members, ==_iff j k)

aged_or_self : (now : ℕ) (k : String) (o : Option MemberRecord) → aged_or now k o o ≡ aged now k o
aged_or_self now k none = refl
aged_or_self now k (some r) = refl

lookup-promote_each :
    (k : String) (rest : List (String × MemberRecord)) (now : ℕ) (s : MembershipState)
    → HasDistinctKeys rest
    → All (λ x. lookup x.0 s.members ≡ some x.1) rest
    → lookup k (promote_each rest now s).members
      ≡ aged_or now k (lookup k rest) (lookup k s.members)
unfolding promote_each lookup contains
lookup-promote_each k [] now s distinct agrees = refl
lookup-promote_each k ((j, rec) ∷ rest) now s (fresh, distinct) (found, agrees) =
    let ih =
      lookup-promote_each k rest now (promote_one now j rec s) distinct
        (promote_one-Agrees now j rec rest s fresh agrees) in
    let one = lookup-promote_one k j rec now s found in
    elim (Bool-cases (j == k)) [
      | inl same ↦
          let e : j ≡ k = (==_iff j k).0 same in
          let absent : lookup k rest ≡ none = ground arith in rw same (ground arith)
      | inr other ↦ rw other (ground arith)
    ]

-- `new` is `old` made dead at `now`: the same member at the same address and incarnation.
pub record IsDeadOf (k : String) (now : ℕ) (old new : MemberRecord) : Type 0 where
  pub same_id : new.shard_id ≡ k
  pub dies : new.state ≡ dead
  pub same_incarnation : new.incarnation ≡ old.incarnation
  pub changed_now : new.last_state_change ≡ now
  pub no_deadline : new.suspect_deadline ≡ none

-- What the entry of `k` becomes at `now`: a suspect whose deadline has come is dead, and any other record
-- stands.
pub data IsPromoted (k : String) (now : ℕ) (old new : Option MemberRecord) : Type 0 where
  unknown : old ≡ none → new ≡ none → IsPromoted k now old new
  promoted :
      (r r' : MemberRecord) (t : ℕ)
      → old ≡ some r
      → new ≡ some r'
      → r.state ≡ suspect
      → r.suspect_deadline ≡ some t
      → t ≤ now
      → IsDeadOf k now r r'
      → IsPromoted k now old new
  stands :
      (r : MemberRecord)
      → old ≡ some r
      → new ≡ some r
      → ((t : ℕ) → r.state ≡ suspect → r.suspect_deadline ≡ some t → now < t)
      → IsPromoted k now old new

is_suspect-same : (m : MemberState) → is_suspect m ≡ true → m ≡ suspect
is_suspect-same alive h = cc
is_suspect-same suspect h = refl
is_suspect-same dead h = cc

not_expired :
    (r : MemberRecord) (now : ℕ)
    → expired r now ≡ false
    → (t : ℕ) → r.state ≡ suspect
    → r.suspect_deadline ≡ some t
    → now < t
not_expired r now h t doubted due = ground (arith, rw (doubted, due) at h)

promoted-at :
    (k : String) (now : ℕ) (r : MemberRecord) (deadline : Option ℕ)
    → r.suspect_deadline ≡ deadline
    → expired r now ≡ true
    → IsPromoted k now (some r) (some (buried_record k r now))
promoted-at k now r none at_none h = ground (arith, rw at_none at h)
promoted-at k now r (some t) at_t h =
    promoted r (buried_record k r now) t refl refl (is_suspect-same r.state (ground (arith, h)))
      at_t (ground (arith, rw at_t at h))
      (record {
        same_id = refl;
        dies = refl;
        same_incarnation = refl;
        changed_now = refl;
        no_deadline = refl;
      })

aged-IsPromoted :
    (k : String) (now : ℕ) (old : Option MemberRecord) → IsPromoted k now old (aged now k old)
aged-IsPromoted k now none = unknown refl refl
aged-IsPromoted k now (some r) = elim (Bool-cases (expired r now)) [
  | inl due ↦ rw due (promoted-at k now r r.suspect_deadline refl due)
  | inr early ↦ rw early (stands r refl refl (not_expired r now early))
]

module _ (s : MembershipState) (w : IsWellFormed s) where
  maybe_promote_dead-aged :
      (now : ℕ) (k : String)
      → lookup k (view (maybe_promote_dead now s)) ≡ aged now k (lookup k (view s))
  unfolding maybe_promote_dead view
  maybe_promote_dead-aged now k =
      lookup-promote_each k s.members now s w.distinct (lookup-of_entries s.members w.distinct)
      ∙ aged_or_self now k (lookup k s.members)

  -- Promotion to dead is exact: in a well-formed state, at time now, each member that is suspect with a
  -- deadline that is not after now becomes dead, at the same incarnation and without a deadline, and every
  -- other record stands.
  pub maybe_promote_dead-IsPromoted :
      (now : ℕ) (k : String)
      → IsPromoted k now (lookup k (view s)) (lookup k (view (maybe_promote_dead now s)))
  maybe_promote_dead-IsPromoted now k =
      rw (maybe_promote_dead-aged now k) (aged-IsPromoted k now (lookup k (view s)))

-- The verdict on `k` is suspect or dead, at a node that knows it.
abbrev pub is_doubted : Option MemberRecord → Bool
is_doubted none = false
is_doubted (some r) = not (is_alive r.state)

abbrev pub Doubts : String → MembershipState → Type 0
Doubts k t = is_doubted (lookup k (view t)) ≡ true

mark_suspect-Doubts :
    (k : String) (now : ℕ) (s : MembershipState)
    → contains k s.members ≡ true
    → Runs (λ _. Doubts k) (mark_suspect k now) s
unfolding mark_suspect view install
mark_suspect-Doubts k now s known =
    let (prev, found) = lookup-of_contains k s.members known in
    Runs-member_of-bind k prev _ found (
      Runs-gets-bind _ _ (
        Runs-if (is_alive prev.state) (λ up. Runs-modify _ (rw lookup-insert_self refl))
          (λ down. Runs-pure tt (rw (found, down) refl))))

-- A node that has its own record sends without touching the member table.
module _ (d : Dict String MemberRecord) (id : String) (own : MemberRecord)
    (found : lookup id d ≡ some own) where
  abbrev Keeps : MembershipState → Type 0
  Keeps t = (t.members ≡ d) × (t.self_id ≡ id)

  select_outgoing_deltas-Keeps :
      (s : MembershipState) → Keeps s → Runs (λ _. Keeps) select_outgoing_deltas s
  unfolding select_outgoing_deltas
  select_outgoing_deltas-Keeps s (members, self) = Runs-gets-bind _ _ (
      Runs-member_of-bind s.self_id own _ (rw (members, self) found)
        (Runs-modify-bind _ _ (Runs-pure _ (members, self))))

  send_probe-Keeps :
      (r : Rng) (target : String) (now : ℕ) (s : MembershipState)
      → Keeps s
      → Runs (λ _. Keeps) (send_probe r target now) s
  unfolding send_probe
  send_probe-Keeps r target now s h = Runs-modify-bind _ _ (
      Runs-modify-bind _ _ (
        Runs-modify-bind _ _ (
          Runs-bind (select_outgoing_deltas-Keeps _ h)
            (λ deltas t k. Runs-gets-bind _ _ (Runs-pure _ k)))))

  probe_one_of-Keeps :
      (r : Rng) (cs : List String) (now : ℕ) (s : MembershipState)
      → Keeps s
      → Runs (λ _. Keeps) (probe_one_of r cs now) s
  unfolding probe_one_of
  probe_one_of-Keeps r [] now s h = Runs-modify-bind _ _ (Runs-pure [] h)
  probe_one_of-Keeps r (c ∷ cs) now s h =
      Runs-bind {R = λ _. Keeps} (record { returns = h })
        (λ target t k. send_probe-Keeps r target now t k)

-- A probe went out to helpers, and none of them has reached the target.
abbrev pub is_unconfirmed : Option PendingProbe → String → Bool
is_unconfirmed none target = false
is_unconfirmed (some p) target =
    is_some p.indirect_sent_at && not p.indirect_success_seen && (p.target_id == target)

unconfirmed-is_unconfirmed :
    (probe : Option PendingProbe) (target : String)
    → is_unconfirmed probe target ≡ true
    → unconfirmed probe ≡ some target
unconfirmed-is_unconfirmed none target h = cc
unconfirmed-is_unconfirmed (some p) target h = ground (arith, ==_iff p.target_id target)

suspect_unconfirmed-Doubts :
    (target : String) (now : ℕ) (s : MembershipState)
    → Reached s s
    → is_peer s target ≡ true
    → Runs (λ _ t. Reached s t × Doubts target t) (suspect_unconfirmed (some target) now) s
unfolding suspect_unconfirmed
suspect_unconfirmed-Doubts target now s q peer =
    Runs-both (mark_suspect-Runs q target now (ground arith) (ground arith))
      (mark_suspect-Doubts target now s (ground arith))

probe_target :
    (probe : Option PendingProbe) (s : MembershipState) (target : String)
    → targets_peer probe s ≡ true
    → is_unconfirmed probe target ≡ true
    → is_peer s target ≡ true
probe_target none s target known h = cc
probe_target (some p) s target known h =
    let e : p.target_id ≡ target = (==_iff p.target_id target).0 (ground arith) in rw e at known

period-Doubts :
    (r : Rng) (s : MembershipState) (now : ℕ) (target : String)
    → Reached s s
    → is_unconfirmed s.pending_probe target ≡ true
    → is_peer s target ≡ true
    → Runs (λ _. Doubts target) (start_protocol_period r now) s
unfolding start_protocol_period view
period-Doubts r s now target q late peer =
    let e = unconfirmed-is_unconfirmed s.pending_probe target late in
    Runs-gets-bind _ _ (
      rw e (
        Runs-bind (suspect_unconfirmed-Doubts target now s q peer) λ _ t (q', doubted).
          let (own, found) = own_record q'.well in
          Runs-modify-bind _ _ (
            Runs-gets-bind _ _ (
              Runs-weaken (probe_one_of-Keeps t.members t.self_id own found r _ now _ (refl, refl))
                (λ _ u k. rw k.0 doubted)))))

-- A probe that was escalated and never confirmed counts: when the next protocol period starts, from a
-- well-formed state and for every random generator, the period starts without error and the target of
-- the old probe is suspect or dead in the view.
pub start_protocol_period-Doubts :
    (r : Rng) (s : MembershipState) (now : ℕ) (target : String)
    → IsWellFormed s
    → is_unconfirmed s.pending_probe target ≡ true
    → (out : List OutgoingMessage) × (t : MembershipState) × (start_protocol_period r now s
        ≡ some (out, t))
      × Doubts target t
start_protocol_period-Doubts r s now target w late = Runs-some (start_protocol_period r now) s (
    period-Doubts r s now target (record { well = w; steps = here }) late
      (probe_target s.pending_probe s target w.probe_known late))
