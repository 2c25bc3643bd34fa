-- ===== src/Membership/Admission.antt =====
-- Cluster admission: no record of another model enters the member table.
use model_shard.Prelude.{
  ℕ, ◌+◌, String, ◌≡◌, refl, ◌∙◌, true, false, Option, some, List, [], ◌∷◌, ◌==◌, ==_iff, lookup,
  string_eq, All, All-insert, All-lookup, if◌then◌else◌,
}
use model_shard.Membership.Records.{MemberState, SwimConfig, MemberRecord, OutgoingMessage}
use model_shard.Membership.Machine.{
  PeerSpec, MembershipState, initial_record, peer_records, blank, install, view,
}
use model_shard.Membership.Gossip.{admit}
use model_shard.Membership.Tick.{Rng}
use model_shard.Membership.Spec.{
  Change, suspects, buries, merges, revives, joins, learns, Step, quiet, changes, refutes, Steps,
  here, next, IsWellFormed,
}
use model_shard.Membership.Runs.{Runs-returned}
use model_shard.Membership.Events.{Event, serve, serve-Runs}

-- The node serves `model`, and so do all members that it knows.
pub record IsUniform (model : String) (s : MembershipState) : Type 0 where
  pub own : s.local_model_id ≡ model
  pub members : All (λ e. e.1.model_id ≡ model) s.members

module _ (model : String) (named : (model == "") ≡ false) where
  admit-model :
      (s : MembershipState) (rec : MemberRecord)
      → s.local_model_id ≡ model
      → admit s rec ≡ true
      → rec.model_id ≡ model
  unfolding admit
  admit-model s rec own fit =
      let fit' : (if model == "" then true else rec.model_id == model) ≡ true = rw own at fit in
      (==_iff rec.model_id model).0 (rw named at fit')

  model-lookup :
      (s : MembershipState) (k : String) (r : MemberRecord)
      → IsUniform model s
      → lookup k s.members ≡ some r
      → r.model_id ≡ model
  model-lookup s k r u found = All-lookup (λ e. e.1.model_id ≡ model) k r s.members u.members found

  Change-model :
      {now : ℕ} {s : MembershipState} {k : String} {new : MemberRecord}
      → IsUniform model s
      → Change now s k new
      → new.model_id ≡ model
  Change-model {s = s} {k = k} u (suspects prev found up other e) =
      rw e (model-lookup s k prev u found)
  Change-model {s = s} {k = k} u (buries prev found late e) = rw e (model-lookup s k prev u found)
  Change-model {s = s} u (merges d prev found key fit newer other e) =
      rw e (admit-model s d u.own fit)
  Change-model {s = s} {k = k} u (revives prev i found down other le e) =
      rw e (model-lookup s k prev u found)
  Change-model {s = s} u (joins rec key fit up e) = rw e (admit-model s rec u.own fit)
  Change-model {s = s} {new = new} u (learns absent key fit other) = admit-model s new u.own fit

  install-IsUniform :
      {s : MembershipState} (k : String) (old : Option MemberState) (new : MemberRecord) (now : ℕ)
      → IsUniform model s
      → new.model_id ≡ model
      → IsUniform model (install k old new now s)
  unfolding install
  install-IsUniform {s} k old new now u e = record {
    own = u.own;
    members = All-insert (λ e. e.1.model_id ≡ model) k new s.members e u.members;
  }

  Step-IsUniform : {s t : MembershipState} → IsUniform model s → Step s t → IsUniform model t
  Step-IsUniform u (quiet q) = record {
    own = q.local_model_id ∙ u.own;
    members = rw q.members u.members;
  }
  Step-IsUniform u (changes now k new c e) =
      rw e (install-IsUniform k _ new now u (Change-model u c))
  Step-IsUniform {s} u (refutes now d prev found about down fresh e) = rw e (
      install-IsUniform {s = record s { self_incarnation = d.incarnation + 1 }} s.self_id _ _ now
        (record { own = u.own; members = u.members }) (model-lookup s s.self_id prev u found))

  Steps-IsUniform : {s t : MembershipState} → IsUniform model s → Steps s t → IsUniform model t
  Steps-IsUniform u here = u
  Steps-IsUniform u (next r st) = Step-IsUniform (Steps-IsUniform u r) st

  -- A node that serves a named model and knows only members that serve it keeps it so, whatever it
  -- receives: from such a well-formed state s, after any calls, every record in the view has that model.
  pub serve-IsUniform :
      (r : Rng) (es : List Event) (s t : MembershipState) (out : List OutgoingMessage)
      → IsWellFormed s
      → IsUniform model s
      → serve r es s ≡ some (out, t)
      → All (λ e. e.1.model_id ≡ model) (view t)
  unfolding view
  serve-IsUniform r es s t out w u ran =
      let q =
        Runs-returned (serve r es) s out t (serve-Runs r es (record { well = w; steps = here }))
          ran in
      (Steps-IsUniform u q.steps).members

-- What the constructor builds is uniform.
peer_records-model :
    (self_id : String) (incarnation : ℕ) (model : String) (ps : List PeerSpec)
    (d : List (String × MemberRecord))
    → All (λ e. e.1.model_id ≡ model) d
    → All (λ e. e.1.model_id ≡ model) (peer_records (initial_record self_id incarnation model) ps d)
unfolding peer_records
peer_records-model self_id incarnation model [] d h = h
peer_records-model self_id incarnation model (p ∷ ps) d h =
    peer_records-model self_id incarnation model ps _
      (All-insert (λ e. e.1.model_id ≡ model) p.shard_id _ d refl h)

pub blank-IsUniform :
    (self_spec : PeerSpec) (peers : List PeerSpec) (rng : ℕ) (config : SwimConfig) (model : String)
    (incarnation : ℕ)
    → IsUniform model (blank self_spec peers rng config model incarnation)
unfolding blank
blank-IsUniform self_spec peers rng config model incarnation = record {
  own = refl;
  members = peer_records-model self_spec.shard_id incarnation model (self_spec ∷ peers) [] tt;
}
