-- ===== src/Runner/Ownership.antt =====
-- The view of expert ownership that the runner (membership/runner.py) and the node (node.py) keep, and
-- the deltas that wait to be sent. Times are milliseconds.
use Prim.Native.Nat.{max}
use model_shard.Prelude.{
  ℕ, ◌+◌, ◌-◌, String, Bool, true, Option, none, some, List, [], ◌∷◌, ◌++◌, filter, map, ltb,
  nat_equals, if◌then◌else◌, Dict, keys, lookup, insert, string_eq, nat_eq, pair_eq,
}
use model_shard.Membership.Records.{OwnershipDeltaRecord}

-- (shard_id, layer_idx, expert_id)
abbrev pub OwnershipKey : Type 0
OwnershipKey = String × (ℕ × ℕ)

-- (action, ts_unix_ms); the action 0 is ADD and 1 is REMOVE.
abbrev pub OwnershipView : Type 0
OwnershipView = Dict OwnershipKey (ℕ × ℕ)

abbrev pub key_of : OwnershipDeltaRecord → OwnershipKey
key_of od = (od.shard_id, (od.layer_idx, od.expert_id))

-- existing is None or ts > existing[1]
abbrev pub is_newer : ℕ → Option (ℕ × ℕ) → Bool
is_newer ts none = true
is_newer ts (some existing) = ltb existing.1 ts

-- `Node._ownership_view_put`, and the same lines of the runner.
unfoldable pub ownership_view_put : OwnershipDeltaRecord → OwnershipView → OwnershipView
ownership_view_put od view =
    if is_newer od.ts_unix_ms (lookup (key_of od) view)
    then insert (key_of od) (od.action, od.ts_unix_ms) view
    else view

-- The loop of `_on_recv_decoded` over the deltas of a message, with the list `applied`.
unfoldable pub scrape :
    List OwnershipDeltaRecord → OwnershipView → OwnershipView × List OwnershipDeltaRecord
unfolding ownership_view_put
scrape [] view = (view, [])
scrape (od ∷ ods) view =
    let rest = scrape ods (ownership_view_put od view) in
    (rest.0, if is_newer od.ts_unix_ms (lookup (key_of od) view) then od ∷ rest.1 else rest.1)

-- The keys of the entries whose action is ADD.
unfoldable pub ownership_view : OwnershipView → List OwnershipKey
ownership_view view = keys (filter (λ e. nat_equals e.1.0 0) view)

pub record OutboundOwnership : Type 0 where
  pub delta : OwnershipDeltaRecord
  pub ttl : ℕ

abbrev pub Outbox : Type 0
Outbox = List OutboundOwnership

abbrev pub ownership_delta : String → ℕ → ℕ → ℕ → ℕ → OwnershipDeltaRecord
ownership_delta shard_id layer_idx expert_id action ts = record {
  shard_id = shard_id;
  layer_idx = layer_idx;
  expert_id = expert_id;
  action = action;
  ts_unix_ms = ts;
}

abbrev queued : OwnershipDeltaRecord → ℕ → Outbox → Outbox
queued od ttl outbox = outbox ++ record { delta = od; ttl = ttl } ∷ []

-- `now` is int(time.time() * 1000).
unfoldable pub announce_ownership_add :
    String → ℕ → ℕ → ℕ → ℕ → Outbox × OwnershipView → Outbox × OwnershipView
unfolding ownership_view_put
announce_ownership_add self_id layer_idx expert_id ttl now (outbox, view) =
    let od = ownership_delta self_id layer_idx expert_id 0 now in
    (queued od ttl outbox, ownership_view_put od view)

abbrev pub existing_ts : Option (ℕ × ℕ) → ℕ
existing_ts none = 0
existing_ts (some existing) = existing.1

-- The removal is dated after what the view holds.
unfoldable pub announce_ownership_remove :
    String → ℕ → ℕ → ℕ → ℕ → Outbox × OwnershipView → Outbox × OwnershipView
announce_ownership_remove self_id layer_idx expert_id ttl now (outbox, view) =
    let key : OwnershipKey = (self_id, (layer_idx, expert_id)) in
    let ts = max now (existing_ts (lookup key view) + 1) in
    (queued (ownership_delta self_id layer_idx expert_id 1 ts) ttl outbox, insert key (1, ts) view)

unfoldable pub surviving : Outbox → Outbox
surviving [] = []
surviving (o ∷ os) =
    let rest = surviving os in
    if ltb 1 o.ttl then record { delta = o.delta; ttl = o.ttl - 1 } ∷ rest else rest

-- What is sent with this round, and what remains to be sent.
unfoldable pub drain_outbound_ownership : Outbox → List OwnershipDeltaRecord × Outbox
unfolding surviving
drain_outbound_ownership outbox = (map (λ o. o.delta) outbox, surviving outbox)
