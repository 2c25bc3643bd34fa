-- ===== src/Membership/Spec.antt =====
-- The abstract protocol that `tick` and `recv` implement: which changes a node may make to the
-- record of one member, and which steps its state may take.
use model_shard.Prelude.{
  ℕ, ◌+◌, ◌≤◌, String, Option, none, some, Bool, true, false, not, ◌&&◌, ◌≡◌, ◌==◌, lookup,
  contains, string_eq, All, HasDistinctKeys, ltb,
}
use model_shard.Membership.Records.{MemberRecord}
use model_shard.Membership.Machine.{PendingProbe, MembershipState, install}
use model_shard.Membership.Gossip.{is_alive, admit, suspected, revived, supersedes, merged}
use model_shard.Membership.Handlers.{joined, buried, state_of}
use model_shard.Membership.Tick.{expired, buried_record}

-- A change of the record of `k` to `new`, one constructor for each rule of the protocol.
pub data Change (now : ℕ) (s : MembershipState) (k : String) (new : MemberRecord) : Type 0 where
  suspects :
      (prev : MemberRecord)
      → lookup k s.members ≡ some prev
      → is_alive prev.state ≡ true
      → (k == s.self_id) ≡ false
      → new ≡ suspected prev k now (now + s.cfg.t_suspect_ms)
      → Change now s k new
  buries :
      (prev : MemberRecord)
      → lookup k s.members ≡ some prev
      → expired prev now ≡ true
      → new ≡ buried_record k prev now
      → Change now s k new
  merges :
      (d prev : MemberRecord)
      → lookup k s.members ≡ some prev
      → d.shard_id ≡ k
      → admit s d ≡ true
      → supersedes d prev ≡ true
      → (k == s.self_id) ≡ false
      → new ≡ merged d prev now s.cfg.t_suspect_ms
      → Change now s k new
  revives :
      (prev : MemberRecord) (incarnation : ℕ)
      → lookup k s.members ≡ some prev
      → is_alive prev.state ≡ false
      → (k == s.self_id) ≡ false
      → prev.incarnation ≤ incarnation
      → new ≡ revived prev prev.shard_id incarnation now
      → Change now s k new
  joins :
      (rec : MemberRecord)
      → rec.shard_id ≡ k
      → admit s rec ≡ true
      → buried (lookup k s.members) rec ≡ false
      → new ≡ joined rec now
      → Change now s k new
  learns :
      lookup k s.members ≡ none
      → new.shard_id ≡ k
      → admit s new ≡ true
      → (k == s.self_id) ≡ false
      → Change now s k new

-- Nothing that other nodes or observers see of the membership has changed.
pub record Quiet (s t : MembershipState) : Type 0 where
  pub self_id : t.self_id ≡ s.self_id
  pub self_incarnation : t.self_incarnation ≡ s.self_incarnation
  pub cfg : t.cfg ≡ s.cfg
  pub local_model_id : t.local_model_id ≡ s.local_model_id
  pub members : t.members ≡ s.members
  pub transitions : t.transitions ≡ s.transitions

pub data Step (s t : MembershipState) : Type 0 where
  quiet : Quiet s t → Step s t
  changes :
      (now : ℕ) (k : String) (new : MemberRecord)
      → Change now s k new
      → t ≡ install k (state_of (lookup k s.members)) new now s
      → Step s t
  refutes :
      (now : ℕ) (d prev : MemberRecord)
      → lookup s.self_id s.members ≡ some prev
      → d.shard_id ≡ s.self_id
      → is_alive d.state ≡ false
      → ltb d.incarnation s.self_incarnation ≡ false
      → t
        ≡ install s.self_id
            (some prev.state)
            (revived prev s.self_id (d.incarnation + 1) now)
            now
            (record s { self_incarnation = d.incarnation + 1 })
      → Step s t

pub data Steps (s : MembershipState) : MembershipState → Type 0 where
  here : Steps s s
  next : {t u : MembershipState} → Steps s t → Step t u → Steps s u

pub Steps-trans : {s t u : MembershipState} → Steps s t → Steps t u → Steps s u
Steps-trans r here = r
Steps-trans r (next q st) = next (Steps-trans r q) st

abbrev pub alive_at : Option MemberRecord → Bool
alive_at none = false
alive_at (some r) = is_alive r.state

abbrev pub is_peer : MembershipState → String → Bool
is_peer s k = contains k s.members && not (k == s.self_id)

abbrev pub targets_peer : Option PendingProbe → MembershipState → Bool
targets_peer none s = true
targets_peer (some p) s = is_peer s p.target_id

-- What the constructor establishes and every method keeps.
pub record IsWellFormed (s : MembershipState) : Type 0 where
  pub own_alive : alive_at (lookup s.self_id s.members) ≡ true
  pub keyed : All (λ e. e.1.shard_id ≡ e.0) s.members
  pub distinct : HasDistinctKeys s.members
  pub probe_known : targets_peer s.pending_probe s ≡ true

-- Well formed, and reached from `s` by steps of the protocol.
pub record Reached (s t : MembershipState) : Type 0 where
  pub well : IsWellFormed t
  pub steps : Steps s t
