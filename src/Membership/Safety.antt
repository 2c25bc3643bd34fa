-- ===== src/Membership/Safety.antt =====
-- No call of the state machine raises, and what holds in every state that it reaches.
use model_shard.Prelude.{
  ℕ, String, ◌≡◌, refl, true, some, List, [], ◌∷◌, lookup, lookup-insert, lookup-insert_self,
  string_eq, All, HasDistinctKeys, HasDistinctKeys-insert, All-insert, ltb, arith, inl, inr,
  Bool-cases,
}
use model_shard.Membership.Records.{SwimConfig, MemberRecord, OutgoingMessage}
use model_shard.Membership.Machine.{
  PeerSpec, MembershipState, initial_record, peer_records, blank, init, enqueue_backlog,
}
use model_shard.Membership.Tick.{Rng}
use model_shard.Membership.Spec.{Steps, here, alive_at, IsWellFormed}
use model_shard.Membership.Runs.{Runs-some}
use model_shard.Membership.Events.{Event, serve, serve-Runs}

-- What `__init__` enters is keyed by the shard ids, each once.
record IsFresh (d : List (String × MemberRecord)) : Type 0 where
  keyed : All (λ e. e.1.shard_id ≡ e.0) d
  distinct : HasDistinctKeys d

module _ (self_id : String) (incarnation : ℕ) (model : String) where
  peer_records-IsFresh :
      (ps : List PeerSpec) (d : List (String × MemberRecord))
      → IsFresh d
      → IsFresh (peer_records (initial_record self_id incarnation model) ps d)
  unfolding peer_records
  peer_records-IsFresh [] d h = h
  peer_records-IsFresh (p ∷ ps) d h = peer_records-IsFresh ps _ (record {
    keyed = All-insert _ p.shard_id _ d refl h.keyed;
    distinct = HasDistinctKeys-insert p.shard_id _ d h.distinct;
  })

  -- A key that is alive stays so while peers are entered, also one that has the node's own id.
  peer_records-alive_at :
      (k : String) (ps : List PeerSpec) (d : List (String × MemberRecord))
      → alive_at (lookup k d) ≡ true
      → alive_at (lookup k (peer_records (initial_record self_id incarnation model) ps d)) ≡ true
  unfolding peer_records
  peer_records-alive_at k [] d h = h
  peer_records-alive_at k (p ∷ ps) d h =
      peer_records-alive_at k ps _
        (ground (arith, lookup-insert p.shard_id k (initial_record self_id incarnation model p) d))

pub own_record :
    {s : MembershipState}
    → IsWellFormed s
    → (own : MemberRecord) × (lookup s.self_id s.members ≡ some own)
own_record w = ground (arith, w.own_alive)

module _ (self_spec : PeerSpec) (peers : List PeerSpec) (rng : ℕ) (config : SwimConfig)
    (model : String) (incarnation : ℕ) where
  pub blank-IsWellFormed : IsWellFormed (blank self_spec peers rng config model incarnation)
  unfolding blank
  blank-IsWellFormed =
      let id = self_spec.shard_id in
      let fresh =
        peer_records-IsFresh id incarnation model (self_spec ∷ peers) []
          (record { keyed = tt; distinct = tt }) in
      record {
        own_alive = peer_records-alive_at id incarnation model id peers _ (rw lookup-insert_self);
        keyed = fresh.keyed;
        distinct = fresh.distinct;
        probe_known = refl;
      }

  -- The constructor returns, and what it returns is well formed.
  pub init-IsWellFormed :
      (s : MembershipState) × (init self_spec peers rng config model incarnation ≡ some s)
      × IsWellFormed s
  unfolding init
  init-IsWellFormed =
      let s₀ = blank self_spec peers rng config model incarnation in
      let w = blank-IsWellFormed in
      elim (Bool-cases (ltb 0 incarnation)) [
        | inl seeded ↦
            let (own, found) = own_record w in
            (
              enqueue_backlog own 0 s₀,
              rw (seeded, found),
              record {
                own_alive = w.own_alive;
                keyed = w.keyed;
                distinct = w.distinct;
                probe_known = refl;
              },
            )
        | inr zero ↦ (s₀, rw zero, w)
      ]

  -- Whatever the node is built from, and whatever ticks and messages come in whatever order, no call
  -- raises: the constructor gives a state s and the calls end in a state t that is well formed (the
  -- node's own record is there and alive, every record stands under its shard id, each key once, and
  -- the target of a probe in flight is a known peer), and t is reached from s by steps of the protocol.
  pub serve-Implements :
      (r : Rng) (es : List Event)
      → (s : MembershipState) × (out : List OutgoingMessage) × (t : MembershipState) × (init
            self_spec peers rng config model incarnation
          ≡ some s)
        × (serve r es s ≡ some (out, t))
        × IsWellFormed t
        × Steps s t
  serve-Implements r es =
      let (s, built, well) = init-IsWellFormed in
      let (out, t, ran, q) =
        Runs-some (serve r es) s (serve-Runs r es (record { well = well; steps = here })) in
      (s, out, t, built, ran, q.well, q.steps)
