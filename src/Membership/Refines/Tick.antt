-- ===== src/Membership/Refines/Tick.antt =====
-- `tick` and its parts, for every random generator.
use model_shard.Prelude.{
  ℕ, String, ◌≡◌, ◌≢◌, refl, Bool, true, false, Option, none, some, List, [], ◌∷◌, ◌==◌, ==_iff,
  ◌&&◌, lookup, contains, string_eq, elem, arith, Dict, values, map, filter, take, All,
  HasDistinctKeys, lookup-insert, lookup-of_entries, inl, inr, Bool-cases, if◌then◌else◌,
}
use model_shard.Membership.Records.{MemberState, suspect, MemberRecord}
use model_shard.Membership.Machine.{PendingProbe, MembershipState, pure, install}
use model_shard.Membership.Gossip.{is_alive}
use model_shard.Membership.Tick.{
  Rng, overdue, maybe_timeout_helps, expired, promote_one, promote_each, maybe_promote_dead,
  alive_ids, not_self, helper_of, unconfirmed, suspect_unconfirmed, choose, shuffled, send_probe,
  probe_one_of, start_protocol_period, ask_helpers, give_up_on, escalate, late, escalate_if_late,
  maybe_escalate_probe, tick,
}
use model_shard.Membership.Spec.{buries, is_peer, targets_peer, Reached}
use model_shard.Membership.Runs.{
  Runs, Runs-pure, Runs-if, Runs-bind, Runs-gets-bind, Runs-modify, Runs-modify-bind,
}
use model_shard.Membership.WellFormed.{
  Reached-Change, Reached-Quiet, Reached-probe, Reached-start, Reached-trans, Steps-is_peer,
}
use model_shard.Membership.Refines.Gossip.{
  mark_suspect-Runs, gc_backlog-Reached, select_outgoing_deltas-Runs,
}
use model_shard.Membership.Refines.Handlers.{resolve_helps-Runs}

-- The snapshot that `promote_each` walks agrees with the table where it has still to go.
abbrev pub Agrees : List (String × MemberRecord) → MembershipState → Type 0
Agrees rest s = All (λ x. lookup x.0 s.members ≡ some x.1) rest

install-Agrees :
    (k : String) (old : Option MemberState) (new : MemberRecord) (now : ℕ)
    (rest : List (String × MemberRecord)) (s : MembershipState)
    → contains k rest ≡ false
    → Agrees rest s
    → Agrees rest (install k old new now s)
unfolding install contains lookup
install-Agrees k old new now [] s fresh h = tt
install-Agrees k old new now ((j, r) ∷ rest) s fresh (found, h) = (
  ground (arith, lookup-insert k j new s.members, ==_iff k j, ==_iff j k),
  install-Agrees k old new now rest s (ground arith) h,
)

promote_one-Reached :
    {o s : MembershipState} (now : ℕ) (k : String) (rec : MemberRecord)
    → lookup k s.members ≡ some rec
    → Reached o s
    → Reached o (promote_one now k rec s)
unfolding promote_one
promote_one-Reached {s = s} now k rec found r = elim (Bool-cases (expired rec now)) [
  | inl over ↦
      let old : suspect ≡ rec.state = ground arith in
      rw over (rw old (rw found at (Reached-Change r now k _ (buries rec found over refl))))
  | inr up ↦ rw up r
]

pub promote_one-Agrees :
    (now : ℕ) (k : String) (rec : MemberRecord) (rest : List (String × MemberRecord))
    (s : MembershipState)
    → contains k rest ≡ false
    → Agrees rest s
    → Agrees rest (promote_one now k rec s)
unfolding promote_one
promote_one-Agrees now k rec rest s fresh h = elim (Bool-cases (expired rec now)) [
  | inl over ↦ rw over (install-Agrees k _ _ now rest s fresh h)
  | inr up ↦ rw up h
]

promote_each-Reached :
    {o : MembershipState} (rest : List (String × MemberRecord)) (now : ℕ) (s : MembershipState)
    → HasDistinctKeys rest
    → Agrees rest s
    → Reached o s
    → Reached o (promote_each rest now s)
unfolding promote_each
promote_each-Reached [] now s distinct agrees r = r
promote_each-Reached ((k, rec) ∷ rest) now s (fresh, distinct) (found, agrees) r =
    promote_each-Reached rest now _ distinct (promote_one-Agrees now k rec rest s fresh agrees)
      (promote_one-Reached now k rec found r)

-- What `alive_ids` lists is in the table and passes the filter.
alive_ids-elem :
    (keep : String → Bool) (d : Dict String MemberRecord) (x : String)
    → All (λ e. e.1.shard_id ≡ e.0) d
    → elem x (map (λ r. r.shard_id) (filter (λ r. keep r.shard_id && is_alive r.state) (values d)))
      ≡ true
    → (contains x d && keep x) ≡ true
unfolding contains lookup
alive_ids-elem keep [] x h m = cc
alive_ids-elem keep ((k, r) ∷ d) x (key, h) m =
    elim (Bool-cases (keep r.shard_id && is_alive r.state)) [
      | inl kept ↦ elim (Bool-cases (r.shard_id == x)) [
        | inl here ↦
            let same : r.shard_id ≡ x = (==_iff r.shard_id x).0 here in ground (arith, ==_iff k x)
        | inr there ↦ ground (arith, ==_iff k x, alive_ids-elem keep d x h)
      ]
      | inr dropped ↦ ground (arith, ==_iff k x, alive_ids-elem keep d x h)
    ]

-- The target of the probe in flight is a peer, and only it is suspected.
unconfirmed-target :
    (probe : Option PendingProbe) (s : MembershipState) (k : String)
    → targets_peer probe s ≡ true
    → unconfirmed probe ≡ some k
    → is_peer s k ≡ true
unconfirmed-target none s k known e = cc
unconfirmed-target (some p) s k known e = ground arith

module _ {o s : MembershipState} (q : Reached o s) where
  maybe_promote_dead-Reached : (now : ℕ) → Reached o (maybe_promote_dead now s)
  unfolding maybe_promote_dead
  maybe_promote_dead-Reached now =
      promote_each-Reached s.members now s q.well.distinct
        (lookup-of_entries s.members q.well.distinct) q

  suspect_unconfirmed-Runs :
      (target : Option String) (now : ℕ)
      → ((k : String) → target ≡ some k → is_peer s k ≡ true)
      → Runs (λ _. Reached o) (suspect_unconfirmed target now) s
  unfolding suspect_unconfirmed
  suspect_unconfirmed-Runs none now known = Runs-pure tt q
  suspect_unconfirmed-Runs (some k) now known =
      let peer : is_peer s k ≡ true = known k refl in
      mark_suspect-Runs q k now (ground arith) (ground arith)

  maybe_timeout_helps-Runs : (now : ℕ) → Runs (λ _. Reached o) (maybe_timeout_helps now) s
  unfolding maybe_timeout_helps
  maybe_timeout_helps-Runs now = Runs-gets-bind _ _ (resolve_helps-Runs q (overdue s now) false)

module _ (r : Rng) {o s : MembershipState} (q : Reached o s) where
  send_probe-Runs :
      (target : String) (now : ℕ)
      → is_peer s target ≡ true
      → Runs (λ _. Reached o) (send_probe r target now) s
  unfolding send_probe
  send_probe-Runs target now known = Runs-modify-bind _ _ (
      Runs-modify-bind _ _ (
        Runs-modify-bind _ _ (
          Runs-bind (select_outgoing_deltas-Runs (Reached-Quiet q _ (ground arith) known))
            (λ deltas t q'. Runs-gets-bind _ _ (Runs-pure _ q')))))

  give_up_on-Runs :
      (chosen : List String) (target : String) (now : ℕ)
      → is_peer s target ≡ true
      → Runs (λ _. Reached o) (give_up_on r chosen target now) s
  unfolding give_up_on
  give_up_on-Runs [] target now known =
      Runs-bind (mark_suspect-Runs q target now (ground arith) (ground arith))
        (λ _ t q'. Runs-modify _ (Reached-probe q' none refl))
  give_up_on-Runs (c ∷ cs) target now known = Runs-pure tt q

  -- The chosen target is one of the candidates, and choosing it changes only the generator.
  choose-Runs :
      (cs : List String)
      → cs ≢ []
      → Runs
          (λ target t.
            Reached o t
            × (t.members ≡ s.members)
            × (t.self_id ≡ s.self_id)
            × (elem target cs ≡ true))
          (choose r cs)
          s
  choose-Runs cs some_candidate = record {
    returns = (
      Reached-Quiet q _ (ground arith) q.well.probe_known,
      refl,
      refl,
      r.choice_elem s.rng cs some_candidate,
    );
  }

ask_helpers-Runs :
    (r : Rng) {o s : MembershipState} (probe : PendingProbe) (helpers : List String)
    → Reached o s
    → Runs (λ _. Reached o) (ask_helpers r probe helpers) s
unfolding ask_helpers
ask_helpers-Runs r probe [] q = Runs-pure [] q
ask_helpers-Runs r probe (helper ∷ helpers) q =
    Runs-bind (select_outgoing_deltas-Runs q) λ deltas t q'.
      Runs-gets-bind _ _
        (Runs-bind (ask_helpers-Runs r probe helpers q') (λ rest u q''. Runs-pure _ q''))

module _ (r : Rng) {o s : MembershipState} (q : Reached o s) where
  probe_one_of-Runs :
      (cs : List String) (now : ℕ)
      → ((k : String) → elem k cs ≡ true → is_peer s k ≡ true)
      → Runs (λ _. Reached o) (probe_one_of r cs now) s
  unfolding probe_one_of
  probe_one_of-Runs [] now known =
      Runs-modify-bind _ _ (Runs-pure [] (Reached-Quiet q _ (ground arith) q.well.probe_known))
  probe_one_of-Runs (c ∷ cs) now known =
      Runs-bind (choose-Runs r q (c ∷ cs) (λ e. cc))
        (λ target t h. send_probe-Runs r h.0 target now (rw (h.1, h.2) (known target h.3)))

  -- The peers that `alive_ids` lists for a probe.
  alive_ids-peer : (k : String) → elem k (alive_ids (not_self s) s) ≡ true → is_peer s k ≡ true
  alive_ids-peer k m = alive_ids-elem (not_self s) s.members k q.well.keyed m

module _ (r : Rng) {o s : MembershipState} (q : Reached o s) where
  start_protocol_period-Runs : (now : ℕ) → Runs (λ _. Reached o) (start_protocol_period r now) s
  unfolding start_protocol_period
  start_protocol_period-Runs now = Runs-gets-bind _ _ (
      Runs-bind
        (suspect_unconfirmed-Runs q (unconfirmed s.pending_probe) now
          (λ k. unconfirmed-target s.pending_probe s k q.well.probe_known))
        λ _ t q'.
          let q₀ = Reached-probe q' none refl in
          Runs-modify-bind _ _
            (Runs-gets-bind _ _ (probe_one_of-Runs r q₀ _ now (alive_ids-peer r q₀))))

  shuffled-Runs :
      (cs : List String)
      → Runs
          (λ _ t. Reached o t × (t.members ≡ s.members) × (t.self_id ≡ s.self_id))
          (shuffled r cs)
          s
  shuffled-Runs cs = record {
    returns = (Reached-Quiet q _ (ground arith) q.well.probe_known, refl, refl);
  }

module _ (r : Rng) {o s : MembershipState} (q : Reached o s) where
  escalate-Runs :
      (probe : PendingProbe) (now : ℕ)
      → is_peer s probe.target_id ≡ true
      → Runs (λ _. Reached o) (escalate r probe now) s
  unfolding escalate
  escalate-Runs probe now known = Runs-gets-bind _ _ (
      Runs-bind (shuffled-Runs r q (alive_ids (helper_of s probe) s)) λ candidates t h.
        Runs-bind (ask_helpers-Runs r probe (take s.cfg.k_indirect candidates) (Reached-start h.0))
          λ out u q'.
            let known' : is_peer u probe.target_id ≡ true =
              Steps-is_peer probe.target_id q'.steps (rw (h.1, h.2) known) in
            Runs-modify-bind _ _ (
              Runs-bind
                (give_up_on-Runs r (Reached-probe (Reached-trans h.0 q') _ known') _ _ now known')
                (λ _ v q''. Runs-pure out q'')))

  escalate_if_late-Runs :
      (probe : Option PendingProbe) (now : ℕ)
      → targets_peer probe s ≡ true
      → Runs (λ _. Reached o) (escalate_if_late r probe now) s
  unfolding escalate_if_late
  escalate_if_late-Runs none now known = Runs-pure [] q
  escalate_if_late-Runs (some probe) now known = Runs-gets-bind _ _ (
      Runs-if (late s probe now) (λ overdue. escalate-Runs probe now known)
        (λ waits. Runs-pure [] q))

module _ (r : Rng) {o s : MembershipState} (q : Reached o s) where
  maybe_escalate_probe-Runs : (now : ℕ) → Runs (λ _. Reached o) (maybe_escalate_probe r now) s
  unfolding maybe_escalate_probe
  maybe_escalate_probe-Runs now =
      Runs-gets-bind _ _ (escalate_if_late-Runs r q s.pending_probe now q.well.probe_known)

  period_if_due-Runs :
      (due : Bool) (now : ℕ)
      → Runs (λ _. Reached o) (if due then start_protocol_period r now else pure []) s
  period_if_due-Runs due now =
      Runs-if due (λ _. start_protocol_period-Runs r q now) (λ _. Runs-pure [] q)

pub tick-Runs :
    (r : Rng) {o s : MembershipState} (now : ℕ) → Reached o s → Runs (λ _. Reached o) (tick r now) s
unfolding tick
tick-Runs r {s = s} now q = Runs-modify-bind _ _ (
    Runs-bind (maybe_timeout_helps-Runs (gc_backlog-Reached q now) now) λ timeouts t q₁.
      Runs-modify-bind _ _ (
        Runs-gets-bind _ _ (
          Runs-bind (period_if_due-Runs r (maybe_promote_dead-Reached q₁ now) _ now) λ pings u q₂.
            Runs-bind (maybe_escalate_probe-Runs r q₂ now) (λ asks v q₃. Runs-pure _ q₃))))
