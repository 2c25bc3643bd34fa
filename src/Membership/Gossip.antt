-- ===== src/Membership/Gossip.antt =====
-- The gossip that a node receives and sends: `_admit`, `_maybe_refute`, `_maybe_apply_peer_delta`,
-- `_apply_deltas`, `_maybe_promote_sender_alive`, `_mark_suspect`, `_gc_backlog` and
-- `_select_outgoing_deltas` of src/model_shard/membership/state.py.
use Prim.Native.Nat.{max}
use model_shard.Prelude.{
  ℕ, ◌+◌, ◌*◌, ◌-◌, String, Option, none, some, List, [], ◌∷◌, ◌++◌, Bool, true, false, ◌&&◌, ◌||◌,
  not, ◌==◌, lookup, contains, string_eq, filter, map, if◌then◌else◌, take, drop, ltb, leb,
  nat_equals,
}
use model_shard.Membership.Records.{MemberState, alive, suspect, dead, severity, MemberRecord}
use model_shard.Membership.Machine.{
  BacklogEntry, MembershipState, M, pure, gets, modify, member_of, for_each, install, ◌>>=◌, ◌>>◌,
}

abbrev pub is_alive : MemberState → Bool
is_alive alive = true
is_alive _ = false

abbrev pub is_suspect : MemberState → Bool
is_suspect suspect = true
is_suspect _ = false

abbrev pub is_dead : MemberState → Bool
is_dead dead = true
is_dead _ = false

-- `_admit`: an empty local model id admits every record.
unfoldable pub admit : MembershipState → MemberRecord → Bool
admit s rec = if s.local_model_id == "" then true else rec.model_id == s.local_model_id

abbrev pub suspected : MemberRecord → String → ℕ → ℕ → MemberRecord
suspected prev shard_id now deadline = record prev {
  shard_id = shard_id;
  state = suspect;
  last_state_change = now;
  suspect_deadline = some deadline;
}

unfoldable pub mark_suspect : String → ℕ → M (Unit {0})
mark_suspect shard_id now = do
  prev ← member_of shard_id
  s ← gets (λ s. s)
  if is_alive prev.state
      then modify (
          install shard_id (some prev.state)
            (suspected prev shard_id now (now + s.cfg.t_suspect_ms)) now)
      else pure tt

abbrev pub revived : MemberRecord → String → ℕ → ℕ → MemberRecord
revived prev shard_id incarnation now = record prev {
  shard_id = shard_id;
  state = alive;
  incarnation = incarnation;
  last_state_change = now;
  suspect_deadline = none;
}

-- The node's own record after a refutation, and the counter that it carries.
unfoldable pub maybe_refute : MemberRecord → ℕ → M (Unit {0})
maybe_refute d now = do
  s ← gets (λ s. s)
  if is_alive d.state || ltb d.incarnation s.self_incarnation then pure tt else do
    modify (λ s. record s { self_incarnation = d.incarnation + 1 })
    prev ← member_of s.self_id
    modify
        (install s.self_id (some prev.state) (revived prev s.self_id (d.incarnation + 1) now) now)

-- A record is taken over at a higher incarnation, or at the same one if it is more severe.
abbrev pub supersedes : MemberRecord → MemberRecord → Bool
supersedes d prev =
    not (ltb d.incarnation prev.incarnation)
    && not
        (nat_equals d.incarnation prev.incarnation && leb (severity d.state) (severity prev.state))

abbrev pub merged : MemberRecord → MemberRecord → ℕ → ℕ → MemberRecord
merged d prev now t_suspect_ms = record {
  shard_id = d.shard_id;
  host = prev.host;
  udp_port = prev.udp_port;
  state = d.state;
  incarnation = d.incarnation;
  model_id = d.model_id;
  last_state_change = now;
  suspect_deadline = if is_suspect d.state then some (now + t_suspect_ms) else none;
}

unfoldable pub maybe_apply_peer_delta : MemberRecord → ℕ → M (Unit {0})
unfolding admit
maybe_apply_peer_delta d now = do
  s ← gets (λ s. s)
  if not (admit s d) then pure tt else do
    prev ← member_of d.shard_id
    if supersedes d prev
        then modify
            (install d.shard_id (some prev.state) (merged d prev now s.cfg.t_suspect_ms) now)
        else pure tt

-- The body of the loop of `_apply_deltas`: gossip about an unknown shard is dropped.
unfoldable pub apply_delta : ℕ → MemberRecord → M (Unit {0})
unfolding maybe_refute maybe_apply_peer_delta
apply_delta now d = do
  s ← gets (λ s. s)
  if d.shard_id == s.self_id
      then maybe_refute d now
      else (if contains d.shard_id s.members then maybe_apply_peer_delta d now else pure tt)

unfoldable pub apply_deltas : List MemberRecord → ℕ → M (Unit {0})
unfolding apply_delta for_each
apply_deltas deltas now = for_each deltas (apply_delta now)

-- A record that is not alive is taken to be alive again, at an incarnation that is not lower.
abbrev pub promoted : String → ℕ → ℕ → Option MemberRecord → MembershipState → MembershipState
promoted sender_id sender_incarnation now none s = s
promoted sender_id sender_incarnation now (some prev) s =
    if is_alive prev.state
    then s
    else install sender_id (some prev.state)
        (revived prev prev.shard_id (max prev.incarnation sender_incarnation) now) now s

-- A message from a peer is evidence that it is alive, whatever the cached verdict.
unfoldable pub maybe_promote_sender_alive : String → ℕ → ℕ → MembershipState → MembershipState
maybe_promote_sender_alive sender_id sender_incarnation now s =
    if sender_id == s.self_id
    then s
    else promoted sender_id sender_incarnation now (lookup sender_id s.members) s

-- `now - enqueued_at` may be negative in the source, and then it is below the cutoff too.
unfoldable pub gc_backlog : ℕ → MembershipState → MembershipState
gc_backlog now s = record s {
  backlog = filter (λ b. leb (now - b.enqueued_at) (3 * s.cfg.t_suspect_ms)) s.backlog;
}

-- The order of the sort's key `(b.priority, b.seq)`.
abbrev pub before : BacklogEntry → BacklogEntry → Bool
before a b = ltb a.priority b.priority || nat_equals a.priority b.priority && ltb a.seq b.seq

-- The stable sort: an entry goes in front of the first that does not come before it.
unfoldable pub insert_entry : BacklogEntry → List BacklogEntry → List BacklogEntry
insert_entry a [] = a ∷ []
insert_entry a (b ∷ bs) = if before b a then b ∷ insert_entry a bs else a ∷ b ∷ bs

unfoldable pub sort_backlog : List BacklogEntry → List BacklogEntry
unfolding insert_entry
sort_backlog [] = []
sort_backlog (b ∷ bs) = insert_entry b (sort_backlog bs)

-- `entry.priority += 1`
abbrev pub gossiped : BacklogEntry → BacklogEntry
gossiped b = record b { priority = b.priority + 1 }

-- The own record, and the `k_gossip` entries that were sent least often.
unfoldable pub select_outgoing_deltas : M (List MemberRecord)
unfolding sort_backlog
select_outgoing_deltas = do
  s ← gets (λ s. s)
  own ← member_of s.self_id
  let sorted = sort_backlog s.backlog
  let chosen = take s.cfg.k_gossip sorted
  modify (λ s. record s { backlog = map gossiped chosen ++ drop s.cfg.k_gossip sorted })
  pure (own ∷ map (λ b. b.member) chosen)
