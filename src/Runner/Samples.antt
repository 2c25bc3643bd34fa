-- ===== src/Runner/Samples.antt =====
-- Announcements of two shards, and a runner that goes round twice.
use mathlib.Core.List.Perm
use model_shard.Prelude.{
  ℕ, ◌≤◌, ◌<◌, ◌≡◌, refl, none, some, List, [], ◌∷◌, map, filter, lookup, string_eq, nat_eq,
  pair_eq, arith, ◌==◌, true, false,
}
use model_shard.Membership.Records.{OwnershipDeltaRecord}
use model_shard.Membership.Samples.{rumour_ping}
use model_shard.Runner.Ownership.{
  OwnershipKey, OwnershipView, ownership_delta, ownership_view_put, scrape, Outbox, existing_ts,
  announce_ownership_remove, drain_outbound_ownership,
}
use model_shard.Wire.Envelope.{Envelope, Protobuf}
use model_shard.Runner.Loop.{Action, arrives, adds, goes_round}
use model_shard.Runner.Latest.{scrape-converges, announce_ownership_remove-latest}
use model_shard.Runner.Outbound.{after_rounds, is_due, drain_outbound_ownership-ttl}

-- "b" takes expert 7 of layer 1 at the time 100 and drops it at 200.
abbrev taken : OwnershipDeltaRecord
taken = ownership_delta "b" 1 7 0 100

abbrev dropped : OwnershipDeltaRecord
dropped = ownership_delta "b" 1 7 1 200

-- The action by the time: ADD at 100, else REMOVE.
abbrev action_at : OwnershipKey → ℕ → ℕ
action_at k ts = elim (ts == 100) [ true ↦ 0 | false ↦ 1 ]

abbrev the_key : OwnershipKey
the_key = ("b", (1, 7))

scrape-converges_example :
    lookup the_key (scrape (taken ∷ dropped ∷ []) []).0
    ≡ lookup the_key (scrape (dropped ∷ taken ∷ []) []).0
scrape-converges_example =
    scrape-converges action_at the_key (taken ∷ dropped ∷ []) (dropped ∷ taken ∷ []) [] []
      (refl, (refl, tt)) (Perm.swap dropped taken []) refl

abbrev held : OwnershipView
held = (the_key, (0, 100)) ∷ []

held_ts : existing_ts (lookup the_key held) ≤ existing_ts (lookup the_key held)
held_ts = omega arith

announce_ownership_remove-latest_example :
    (ts : ℕ) × (100 ≤ ts)
    × (existing_ts (lookup the_key held) < ts)
    × ((announce_ownership_remove "b" 1 7 5 100 ([], held)).0
        ≡ record { delta = ownership_delta "b" 1 7 1 ts; ttl = 5 } ∷ [])
    × (lookup the_key (announce_ownership_remove "b" 1 7 5 100 ([], held)).1 ≡ some (1, ts))
    × (lookup the_key (ownership_view_put (ownership_delta "b" 1 7 1 ts) held) ≡ some (1, ts))
announce_ownership_remove-latest_example =
    announce_ownership_remove-latest "b" 1 7 5 100 [] held held held_ts

abbrev outbox : Outbox
outbox = record { delta = taken; ttl = 2 } ∷ record { delta = dropped; ttl = 5 } ∷ []

drain_outbound_ownership-ttl_example :
    (drain_outbound_ownership (after_rounds 3 outbox)).0
    ≡ map (λ o. o.delta) (filter (is_due 3) outbox)
drain_outbound_ownership-ttl_example = drain_outbound_ownership-ttl 3 outbox refl

abbrev actions : List Action
actions =
    arrives rumour_ping
    ∷ adds 1 7 100
    ∷ goes_round (λ i. 100) 100 none none
    ∷ goes_round (λ i. 1100) 1100 none none
    ∷ []

-- A wire that carries envelopes as they are.
abbrev as_is : Protobuf (Unit {0}) (Envelope (Unit {0}))
as_is = record { serialize = λ e. e; parse = λ e. some e; parse-serialize = λ e. refl }
