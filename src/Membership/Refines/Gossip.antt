-- ===== src/Membership/Refines/Gossip.antt =====
-- The methods of Gossip.antt.
use Prim.Native.Nat.{max}
use model_shard.Prelude.{
  ℕ, String, ◌≡◌, refl, true, false, Option, none, some, List, ◌==◌, ==_iff, not, ◌||◌, lookup,
  contains, string_eq, lookup-of_contains, ltb, arith, inl, inr, Bool-cases,
}
use model_shard.Membership.Records.{MemberRecord}
use model_shard.Membership.Machine.{MembershipState, install}
use model_shard.Membership.Gossip.{
  is_alive, admit, supersedes, mark_suspect, maybe_refute, maybe_apply_peer_delta, apply_delta,
  apply_deltas, promoted, maybe_promote_sender_alive, gc_backlog, select_outgoing_deltas,
}
use model_shard.Membership.Spec.{Change, suspects, merges, revives, Reached}
use model_shard.Membership.Runs.{
  Runs, Runs-pure, Runs-if, Runs-gets-bind, Runs-modify, Runs-modify-bind, Runs-member_of-bind,
  Runs-for_each,
}
use model_shard.Membership.WellFormed.{Reached-Change, Reached-Quiet, Reached-refute}

-- A change of the record that is there, noted with its old state.
Reached-update :
    {o s : MembershipState} (now : ℕ) (k : String) (prev new : MemberRecord)
    → Reached o s
    → lookup k s.members ≡ some prev
    → Change now s k new
    → Reached o (install k (some prev.state) new now s)
Reached-update now k prev new r found c = rw found at (Reached-Change r now k new c)

module _ {o s : MembershipState} (r : Reached o s) where
  own_record : (own : MemberRecord) × (lookup s.self_id s.members ≡ some own)
  own_record = ground (arith, r.well.own_alive)

  pub mark_suspect-Runs :
      (k : String) (now : ℕ)
      → contains k s.members ≡ true
      → (k == s.self_id) ≡ false
      → Runs (λ _. Reached o) (mark_suspect k now) s
  unfolding mark_suspect
  mark_suspect-Runs k now known other =
      let (prev, found) = lookup-of_contains k s.members known in
      Runs-member_of-bind k prev _ found (
        Runs-gets-bind _ _ (
          Runs-if (is_alive prev.state)
            (λ up.
              Runs-modify _
                (Reached-update now k prev _ r found (suspects prev found up other refl)))
            (λ down. Runs-pure tt r)))

  pub maybe_refute-Runs :
      (d : MemberRecord) (now : ℕ)
      → d.shard_id ≡ s.self_id
      → Runs (λ _. Reached o) (maybe_refute d now) s
  unfolding maybe_refute
  maybe_refute-Runs d now about =
      let (own, found) = own_record in
      Runs-gets-bind _ _ (
        Runs-if (is_alive d.state || ltb d.incarnation s.self_incarnation) (λ quiet. Runs-pure tt r)
          (λ claim. Runs-modify-bind _ _ (
            Runs-member_of-bind s.self_id own _ found (
              Runs-modify _
                (Reached-refute r now d own found about (ground arith) (ground arith))))))

  pub maybe_apply_peer_delta-Runs :
      (d : MemberRecord) (now : ℕ)
      → contains d.shard_id s.members ≡ true
      → (d.shard_id == s.self_id) ≡ false
      → Runs (λ _. Reached o) (maybe_apply_peer_delta d now) s
  unfolding maybe_apply_peer_delta
  maybe_apply_peer_delta-Runs d now known other =
      let (prev, found) = lookup-of_contains d.shard_id s.members known in
      Runs-gets-bind _ _ (
        Runs-if (not (admit s d)) (λ foreign. Runs-pure tt r)
          (λ fit. Runs-member_of-bind d.shard_id prev _ found (
            Runs-if (supersedes d prev)
              (λ newer. Runs-modify _ (
                Reached-update now d.shard_id prev _ r found
                  (merges d prev found refl (ground arith) newer other refl)))
              (λ stale. Runs-pure tt r))))

  promoted-Reached :
      (k : String) (incarnation now : ℕ) (prev : Option MemberRecord)
      → (k == s.self_id) ≡ false
      → lookup k s.members ≡ prev
      → Reached o (promoted k incarnation now prev s)
  promoted-Reached k incarnation now none other found = r
  promoted-Reached k incarnation now (some prev) other found =
      elim (Bool-cases (is_alive prev.state)) [
        | inl up ↦ rw up r
        | inr down ↦ rw down (
            Reached-update now k prev _ r found
              (revives prev (max prev.incarnation incarnation) found down other (omega arith) refl))
      ]

  pub maybe_promote_sender_alive-Reached :
      (k : String) (incarnation now : ℕ)
      → Reached o (maybe_promote_sender_alive k incarnation now s)
  unfolding maybe_promote_sender_alive
  maybe_promote_sender_alive-Reached k incarnation now = elim (Bool-cases (k == s.self_id)) [
    | inl own ↦ rw own r
    | inr other ↦ rw other (promoted-Reached k incarnation now (lookup k s.members) other refl)
  ]

  pub gc_backlog-Reached : (now : ℕ) → Reached o (gc_backlog now s)
  unfolding gc_backlog
  gc_backlog-Reached now = Reached-Quiet r _ (ground arith) r.well.probe_known

  pub select_outgoing_deltas-Runs : Runs (λ _. Reached o) select_outgoing_deltas s
  unfolding select_outgoing_deltas
  select_outgoing_deltas-Runs =
      let (own, found) = own_record in
      Runs-gets-bind _ _ (
        Runs-member_of-bind s.self_id own _ found (
          Runs-modify-bind _ _ (Runs-pure _ (Reached-Quiet r _ (ground arith) r.well.probe_known))))

pub apply_delta-Runs :
    {o : MembershipState} (now : ℕ) (d : MemberRecord) (s : MembershipState)
    → Reached o s
    → Runs (λ _. Reached o) (apply_delta now d) s
unfolding apply_delta
apply_delta-Runs now d s r = Runs-gets-bind _ _ (
    Runs-if (d.shard_id == s.self_id)
      (λ own. maybe_refute-Runs r d now ((==_iff d.shard_id s.self_id).0 own))
      (λ other.
        Runs-if (contains d.shard_id s.members)
          (λ known. maybe_apply_peer_delta-Runs r d now known other) (λ unknown. Runs-pure tt r)))

pub apply_deltas-Runs :
    {o s : MembershipState} (deltas : List MemberRecord) (now : ℕ)
    → Reached o s
    → Runs (λ _. Reached o) (apply_deltas deltas now) s
unfolding apply_deltas
apply_deltas-Runs {s = s} deltas now r = Runs-for_each deltas (apply_delta-Runs now) s r
