-- ===== src/Membership/Merge/Converge.antt =====
-- The order in which gossip arrives does not matter.
use mathlib.Core.List.{Perm}
use model_shard.Prelude.{
  ℕ, String, ◌≡◌, sym, ◌∙◌, true, Option, none, some, List, [], ◌∷◌, lookup, contains, string_eq,
  arith, is_some,
}
use model_shard.Membership.Records.{MemberRecord}
use model_shard.Membership.Machine.{MembershipState, for_each, view}
use model_shard.Membership.Gossip.{admit, apply_delta, apply_deltas}
use model_shard.Membership.Spec.{IsWellFormed, is_peer, here}
use model_shard.Membership.Runs.{Runs-some}
use model_shard.Membership.WellFormed.{Steps-is_peer}
use model_shard.Membership.Merge.{rank_of, counts, highest, highest-Perm, verdict, rank-injective}
use model_shard.Membership.Merge.Step.{for_each-Merged}

-- Applied from a well-formed state that knows the peer `k`, gossip leaves `k` known at its rank.
apply_deltas-Merged :
    (k : String) (s : MembershipState) (ds : List MemberRecord) (now : ℕ)
    → IsWellFormed s
    → is_peer s k ≡ true
    → (t : MembershipState) × (apply_deltas ds now s ≡ some (tt, t))
      × (is_some (lookup k t.members) ≡ true)
      × (rank_of (lookup k t.members) ≡ highest (counts s k) (rank_of (lookup k s.members)) ds)
unfolding apply_deltas contains
apply_deltas-Merged k s ds now w peer =
    let (_, t, ran, (q, h)) =
      Runs-some (for_each ds (apply_delta now)) s
        (for_each-Merged k now ds s (record { well = w; steps = here }) peer) in
    let still : is_peer t k ≡ true = Steps-is_peer k q.steps peer in
    (t, ran, ground arith, h.rank_at)

module _ (k : String) (s : MembershipState) (w : IsWellFormed s) (peer : is_peer s k ≡ true) where
  -- In a well-formed state that knows the peer k, gossip is applied without error, and afterwards the
  -- rank of k (its incarnation, then its severity) is the highest among the one it had and those of
  -- the gossip about k that is admitted.
  pub apply_deltas-highest :
      (ds : List MemberRecord) (now : ℕ)
      → (t : MembershipState) × (apply_deltas ds now s ≡ some (tt, t))
        × (rank_of (lookup k (view t)) ≡ highest (counts s k) (rank_of (lookup k (view s))) ds)
  unfolding view
  apply_deltas-highest ds now =
      let (t, ran, known, at) = apply_deltas-Merged k s ds now w peer in (t, ran, at)

known_verdict :
    (a b : Option MemberRecord)
    → is_some a ≡ true
    → is_some b ≡ true
    → rank_of a ≡ rank_of b
    → verdict a ≡ verdict b
known_verdict (some r) (some q) h k e = rank-injective r q e
known_verdict none b h k e = cc
known_verdict (some r) none h k e = cc

-- Two nodes, well formed, of one model, both knowing the peer k with the same verdict.
pub record AgreesOn (k : String) (s s' : MembershipState) : Type 0 where
  pub well : IsWellFormed s
  pub well' : IsWellFormed s'
  pub peer : is_peer s k ≡ true
  pub peer' : is_peer s' k ≡ true
  pub model : s'.local_model_id ≡ s.local_model_id
  pub same : verdict (lookup k (view s)) ≡ verdict (lookup k (view s'))

verdict-rank : (a b : Option MemberRecord) → verdict a ≡ verdict b → rank_of a ≡ rank_of b
verdict-rank a b e = ground arith

highest_same_model :
    (k : String) (s s' : MembershipState) (ds : List MemberRecord) (n n' : ℕ)
    → s'.local_model_id ≡ s.local_model_id
    → n ≡ n'
    → highest (counts s k) n ds ≡ highest (counts s' k) n' ds
unfolding admit
highest_same_model k s s' [] n n' e start = start
highest_same_model k s s' (d ∷ ds) n n' e start = highest_same_model k s s' ds _ _ e (rw (e, start))

-- Convergence: two nodes that agree on the peer k and receive the same gossip, each in its own order
-- and at its own time, apply it without error and agree on k again: same incarnation, same state.
pub apply_deltas-converges :
    (k : String) (s s' : MembershipState) (ds ds' : List MemberRecord) (now now' : ℕ)
    → AgreesOn k s s'
    → Perm ds ds'
    → (t : MembershipState) × (t' : MembershipState) × (apply_deltas ds now s ≡ some (tt, t))
      × (apply_deltas ds' now' s' ≡ some (tt, t'))
      × (verdict (lookup k (view t)) ≡ verdict (lookup k (view t')))
unfolding view
apply_deltas-converges k s s' ds ds' now now' a p =
    let (t, ran, known, at) = apply_deltas-Merged k s ds now a.well a.peer in
    let (t', ran', known', at') = apply_deltas-Merged k s' ds' now' a.well' a.peer' in
    let start = verdict-rank (lookup k s.members) (lookup k s'.members) a.same in
    (
      t,
      t',
      ran,
      ran',
      known_verdict _ _ known known' (
          at
          ∙ highest-Perm (counts s k) _ p
          ∙ highest_same_model k s s' ds' _ _ a.model start
          ∙ sym at'),
    )
