-- ===== src/Membership/WellFormed.antt =====
-- The steps of the protocol keep a state well formed.
use model_shard.Prelude.{
  ℕ, ◌+◌, String, ◌≡◌, ◌≢◌, refl, true, false, Option, none, some, ◌==◌, ==_iff, lookup, string_eq,
  lookup-insert, contains-insert, HasDistinctKeys-insert, All-insert, All-lookup, ltb, arith, inl,
  inr, Bool-cases,
}
use model_shard.Membership.Records.{MemberState, MemberRecord}
use model_shard.Membership.Machine.{PendingProbe, MembershipState, install}
use model_shard.Membership.Gossip.{is_alive, revived}
use model_shard.Membership.Handlers.{state_of}
use model_shard.Membership.Tick.{expired}
use model_shard.Membership.Spec.{
  Change, suspects, buries, merges, revives, joins, learns, Quiet, Step, quiet, changes, refutes,
  Steps, here, next, Steps-trans, alive_at, is_peer, targets_peer, IsWellFormed, Reached,
}

targets_peer-install :
    (probe : Option PendingProbe) (k : String) (old : Option MemberState) (new : MemberRecord)
    (now : ℕ) (s : MembershipState)
    → targets_peer probe s ≡ true
    → targets_peer probe (install k old new now s) ≡ true
unfolding install
targets_peer-install none k old new now s h = refl
targets_peer-install (some p) k old new now s h =
    ground (arith, contains-insert k p.target_id new s.members)

-- A record under its own key, alive if it is the node's own, keeps the state well formed.
pub install-IsWellFormed :
    {s : MembershipState} (k : String) (old : Option MemberState) (new : MemberRecord) (now : ℕ)
    → IsWellFormed s
    → new.shard_id ≡ k
    → (k ≡ s.self_id → is_alive new.state ≡ true)
    → IsWellFormed (install k old new now s)
unfolding install
install-IsWellFormed {s} k old new now w key own = record {
  own_alive = elim (Bool-cases (k == s.self_id)) [
    | inl same ↦ rw (lookup-insert, same) (own ((==_iff k s.self_id).0 same))
    | inr other ↦ rw (lookup-insert, other) w.own_alive
  ];
  keyed = All-insert (λ e. e.1.shard_id ≡ e.0) k new s.members key w.keyed;
  distinct = HasDistinctKeys-insert k new s.members w.distinct;
  probe_known = targets_peer-install s.pending_probe k old new now s w.probe_known;
}

module _ {s : MembershipState} (w : IsWellFormed s) where
  shard_id-lookup : (k : String) (r : MemberRecord) → lookup k s.members ≡ some r → r.shard_id ≡ k
  shard_id-lookup k r found = All-lookup (λ e. e.1.shard_id ≡ e.0) k r s.members w.keyed found

  -- Only a record that is not alive is buried, so it is not the node's own.
  expired-ne_self :
      (now : ℕ) (k : String) (r : MemberRecord)
      → lookup k s.members ≡ some r
      → expired r now ≡ true
      → k ≢ s.self_id
  expired-ne_self now k r found late same =
      let own : alive_at (lookup k s.members) ≡ true = rw same w.own_alive in ground arith

  Change-IsWellFormed :
      (now : ℕ) (k : String) (old : Option MemberState) (new : MemberRecord)
      → Change now s k new
      → IsWellFormed (install k old new now s)
  Change-IsWellFormed now k old new (suspects prev found live other e) =
      rw e (install-IsWellFormed k old _ now w refl (λ same. ground (arith, ==_iff k s.self_id)))
  Change-IsWellFormed now k old new (buries prev found late e) = rw e (
      install-IsWellFormed k old _ now w refl
        (λ same. absurd (expired-ne_self now k prev found late same)))
  Change-IsWellFormed now k old new (merges d prev found key fit newer other e) =
      rw e (install-IsWellFormed k old _ now w key (λ same. ground (arith, ==_iff k s.self_id)))
  Change-IsWellFormed now k old new (revives prev i found down other le e) =
      rw e (install-IsWellFormed k old _ now w (shard_id-lookup k prev found) (λ same. refl))
  Change-IsWellFormed now k old new (joins rec key fit up e) =
      rw e (install-IsWellFormed k old _ now w key (λ same. refl))
  Change-IsWellFormed now k old new (learns absent key fit other) =
      install-IsWellFormed k old new now w key (λ same. ground (arith, ==_iff k s.self_id))

targets_peer_same :
    (s t : MembershipState) (probe : Option PendingProbe)
    → t.members ≡ s.members
    → t.self_id ≡ s.self_id
    → targets_peer probe s ≡ true
    → targets_peer probe t ≡ true
targets_peer_same s t none e i h = refl
targets_peer_same s t (some p) e i h = rw (e, i) h

module _ {o s : MembershipState} (r : Reached o s) where
  pub Reached-Change :
      (now : ℕ) (k : String) (new : MemberRecord)
      → Change now s k new
      → Reached o (install k (state_of (lookup k s.members)) new now s)
  Reached-Change now k new c = record {
    well = Change-IsWellFormed r.well now k _ new c;
    steps = next r.steps (changes now k new c refl);
  }

  pub Reached-Quiet :
      (t : MembershipState) → Quiet s t → targets_peer t.pending_probe s ≡ true → Reached o t
  Reached-Quiet t q known = record {
    well = record {
      own_alive = rw (q.members, q.self_id) r.well.own_alive;
      keyed = rw q.members r.well.keyed;
      distinct = rw q.members r.well.distinct;
      probe_known = targets_peer_same s t t.pending_probe q.members q.self_id known;
    };
    steps = next r.steps (quiet q);
  }

  pub Reached-probe :
      (probe : Option PendingProbe)
      → targets_peer probe s ≡ true
      → Reached o (record s { pending_probe = probe })
  Reached-probe probe known = record {
    well = record {
      own_alive = r.well.own_alive;
      keyed = r.well.keyed;
      distinct = r.well.distinct;
      probe_known = targets_peer_same s _ probe refl refl known;
    };
    steps = next r.steps (quiet (ground arith));
  }

  pub Reached-refute :
      (now : ℕ) (d prev : MemberRecord)
      → lookup s.self_id s.members ≡ some prev
      → d.shard_id ≡ s.self_id
      → is_alive d.state ≡ false
      → ltb d.incarnation s.self_incarnation ≡ false
      → Reached o (
          install s.self_id
            (some prev.state)
            (revived prev s.self_id (d.incarnation + 1) now)
            now
            (record s { self_incarnation = d.incarnation + 1 }))
  Reached-refute now d prev found about down fresh = record {
    well =
        install-IsWellFormed {s = record s { self_incarnation = d.incarnation + 1 }} s.self_id _ _
          now
          (record {
            own_alive = r.well.own_alive;
            keyed = r.well.keyed;
            distinct = r.well.distinct;
            probe_known = targets_peer_same s _ s.pending_probe refl refl r.well.probe_known;
          })
          refl (λ same. refl);
    steps = next r.steps (refutes now d prev found about down fresh refl);
  }

pub Reached-start : {o s : MembershipState} → Reached o s → Reached s s
Reached-start r = record { well = r.well; steps = here }

pub Reached-trans : {o s t : MembershipState} → Reached o s → Reached s t → Reached o t
Reached-trans r q = record { well = q.well; steps = Steps-trans r.steps q.steps }

install-is_peer :
    (j k : String) (old : Option MemberState) (new : MemberRecord) (now : ℕ) (s : MembershipState)
    → is_peer s j ≡ true
    → is_peer (install k old new now s) j ≡ true
unfolding install
install-is_peer j k old new now s h = ground (arith, contains-insert k j new s.members)

Step-is_peer :
    {s t : MembershipState} (j : String) → Step s t → is_peer s j ≡ true → is_peer t j ≡ true
Step-is_peer j (quiet q) h = rw (q.members, q.self_id) h
Step-is_peer j (changes now k new c e) h = rw e (install-is_peer j k _ new now _ h)
Step-is_peer j (refutes now d prev found about down fresh e) h =
    rw e (install-is_peer j _ _ _ now _ h)

-- A member that is known stays known.
pub Steps-is_peer :
    {s t : MembershipState} (j : String) → Steps s t → is_peer s j ≡ true → is_peer t j ≡ true
Steps-is_peer j here h = h
Steps-is_peer j (next r st) h = Step-is_peer j st (Steps-is_peer j r h)
