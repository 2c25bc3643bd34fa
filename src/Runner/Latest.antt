-- ===== src/Runner/Latest.antt =====
-- The ownership view is the last writer's: it does not depend on the order in which deltas arrive.
use Prim.Native.Nat.{max}
use mathlib.Core.List.{Perm, Permᴰ}
use mathlib.Core.Logic.{∥∥₁_elim}
use native.Mathlib.Nat.{ℕ_set}
use model_shard.Prelude.{
  ℕ, ◌+◌, ◌<◌, ◌≤◌, String, ◌≡◌, refl, sym, ap, ◌∙◌, Option, none, some, List, [], ◌∷◌, ◌++◌, ◌==◌,
  ==_iff, ==_refl, All, if◌then◌else◌, lookup, lookup-insert, lookup-insert_self, string_eq, nat_eq,
  pair_eq, arith, inl, inr, Bool-cases,
}
use model_shard.Membership.Records.{OwnershipDeltaRecord}
use model_shard.Runner.Ownership.{
  OwnershipKey, OwnershipView, key_of, is_newer, ownership_view_put, scrape, ownership_delta,
  Outbox, existing_ts, announce_ownership_remove,
}

-- What one delta makes of the entry of the key `k`.
abbrev noted : OwnershipKey → OwnershipDeltaRecord → Option (ℕ × ℕ) → Option (ℕ × ℕ)
noted k od old =
    if key_of od == k
    then (if is_newer od.ts_unix_ms old then some (od.action, od.ts_unix_ms) else old)
    else old

abbrev noted_all : OwnershipKey → List OwnershipDeltaRecord → Option (ℕ × ℕ) → Option (ℕ × ℕ)
noted_all k [] old = old
noted_all k (od ∷ ods) old = noted_all k ods (noted k od old)

lookup-ownership_view_put :
    (k : OwnershipKey) (od : OwnershipDeltaRecord) (view : OwnershipView)
    → lookup k (ownership_view_put od view) ≡ noted k od (lookup k view)
unfolding ownership_view_put
lookup-ownership_view_put k od view = elim (Bool-cases (key_of od == k)) [
  | inl same ↦
      let e : key_of od ≡ k = (==_iff (key_of od) k).0 same in
      ground (arith, e, same, lookup-insert (key_of od) k (od.action, od.ts_unix_ms) view)
  | inr other ↦ ground (arith, other, lookup-insert (key_of od) k (od.action, od.ts_unix_ms) view)
]

lookup-scrape :
    (k : OwnershipKey) (ods : List OwnershipDeltaRecord) (view : OwnershipView)
    → lookup k (scrape ods view).0 ≡ noted_all k ods (lookup k view)
unfolding scrape
lookup-scrape k [] view = refl
lookup-scrape k (od ∷ ods) view =
    lookup-scrape k ods (ownership_view_put od view)
    ∙ ap (noted_all k ods) (lookup-ownership_view_put k od view)

takes_over :
    (old : Option (ℕ × ℕ)) (ts : ℕ)
    → existing_ts old < ts
    → (if is_newer ts old then some (1, ts) else old) ≡ some (1, ts)
takes_over none ts h = refl
takes_over (some old) ts h = ground (arith, h)

entry_set : IsSet (Option (ℕ × ℕ))
entry_set = hlevel ℕ_set

-- One shard announces at most one action for a key at a time.
abbrev pub IsTimed : (OwnershipKey → ℕ → ℕ) → OwnershipDeltaRecord → Type 0
IsTimed action_at od = od.action ≡ action_at (key_of od) od.ts_unix_ms

abbrev newest : ℕ → ℕ → Option (ℕ × ℕ) → Option (ℕ × ℕ)
newest action ts old = if is_newer ts old then some (action, ts) else old

newest-newest :
    (a t b u : ℕ) (old : Option (ℕ × ℕ))
    → (t ≡ u → a ≡ b)
    → newest a t (newest b u old) ≡ newest b u (newest a t old)
newest-newest a t b u none same = ground (arith, same)
newest-newest a t b u (some (c, v)) same = ground (arith, same)

module _ (action_at : OwnershipKey → ℕ → ℕ) (k : OwnershipKey) where
  same_action :
      (a b : OwnershipDeltaRecord)
      → IsTimed action_at a
      → IsTimed action_at b
      → key_of a ≡ key_of b
      → a.ts_unix_ms ≡ b.ts_unix_ms
      → a.action ≡ b.action
  same_action a b ta tb e et = ta ∙ rw (e, et) (sym tb)

  noted-noted :
      (a b : OwnershipDeltaRecord) (old : Option (ℕ × ℕ))
      → IsTimed action_at a
      → IsTimed action_at b
      → noted k a (noted k b old) ≡ noted k b (noted k a old)
  noted-noted a b old ta tb = elim (Bool-cases (key_of a == k)) [
    | inl at_a ↦ elim (Bool-cases (key_of b == k)) [
      | inl at_b ↦
          let e : key_of a ≡ key_of b =
            (==_iff (key_of a) k).0 at_a ∙ sym ((==_iff (key_of b) k).0 at_b) in
          rw (at_a, at_b)
            (newest-newest a.action a.ts_unix_ms b.action b.ts_unix_ms old
              (same_action a b ta tb e))
      | inr off ↦ rw (at_a, off) refl
    ]
    | inr off ↦ rw off refl
  ]

  All-Permᴰ :
      {ds ds' : List OwnershipDeltaRecord}
      → Permᴰ ds ds'
      → All (IsTimed action_at) ds
      → All (IsTimed action_at) ds'
  All-Permᴰ Permᴰ.nil h = h
  All-Permᴰ (Permᴰ.cons {a = a} {b = b} e p) h =
      let head : IsTimed action_at b = rw (← e) h.0 in (head, All-Permᴰ p h.1)
  All-Permᴰ (Permᴰ.swap {a = a} {b = b} {a' = a'} {b' = b'} e f) (ha, (hb, rest)) =
      let first : IsTimed action_at a' = rw (← f) hb in
      let second : IsTimed action_at b' = rw (← e) ha in (first, (second, rest))
  All-Permᴰ (Permᴰ.trans p q) h = All-Permᴰ q (All-Permᴰ p h)

  noted_all-Permᴰ :
      {ds ds' : List OwnershipDeltaRecord} (old : Option (ℕ × ℕ))
      → All (IsTimed action_at) ds
      → Permᴰ ds ds'
      → noted_all k ds old ≡ noted_all k ds' old
  noted_all-Permᴰ old h Permᴰ.nil = refl
  noted_all-Permᴰ old h (Permᴰ.cons {a = a} {b = b} e p) = rw e (noted_all-Permᴰ _ h.1 p)
  noted_all-Permᴰ old h (Permᴰ.swap {a = a} {b = b} {l = l} e f) =
      rw (← e, ← f) (ap (noted_all k l) (noted-noted b a old h.1.0 h.0))
  noted_all-Permᴰ old h (Permᴰ.trans p q) =
      noted_all-Permᴰ old h p ∙ noted_all-Permᴰ old (All-Permᴰ p h) q

  noted_all-Perm :
      {ds ds' : List OwnershipDeltaRecord} (old : Option (ℕ × ℕ))
      → All (IsTimed action_at) ds
      → Perm ds ds'
      → noted_all k ds old ≡ noted_all k ds' old
  noted_all-Perm {ds} {ds'} old h p = ∥∥₁_elim p (entry_set _ _) (noted_all-Permᴰ old h)

-- Ownership gossip converges: when a shard announces at most one action for a key at a time, two nodes
-- that hold the same entry of a key, and take in the same deltas in two different orders, hold the same
-- entry of it again.
pub scrape-converges :
    (action_at : OwnershipKey → ℕ → ℕ) (k : OwnershipKey) (ds ds' : List OwnershipDeltaRecord)
    (view view' : OwnershipView)
    → All (IsTimed action_at) ds
    → Perm ds ds'
    → lookup k view ≡ lookup k view'
    → lookup k (scrape ds view).0 ≡ lookup k (scrape ds' view').0
scrape-converges action_at k ds ds' view view' timed p same =
    lookup-scrape k ds view
    ∙ noted_all-Perm action_at k (lookup k view) timed p
    ∙ ap (noted_all k ds') same
    ∙ sym (lookup-scrape k ds' view')

-- A removal that a node announces takes effect, whatever its clock says and whatever its view holds: it
-- is dated at the clock's time or later and after the entry that the view held, the delta with that date
-- is queued, once and last, for the rounds of its ttl, it becomes the entry of the view, and it is taken
-- over by every view whose entry of the key is not later than that earlier one.
pub announce_ownership_remove-latest :
    (id : String) (layer expert ttl now : ℕ) (outbox : Outbox) (view other : OwnershipView)
    → existing_ts (lookup (id, (layer, expert)) other)
      ≤ existing_ts (lookup (id, (layer, expert)) view)
    → (ts : ℕ) × (now ≤ ts)
      × (existing_ts (lookup (id, (layer, expert)) view) < ts)
      × ((announce_ownership_remove id layer expert ttl now (outbox, view)).0
          ≡ outbox ++ record { delta = ownership_delta id layer expert 1 ts; ttl = ttl } ∷ [])
      × (lookup
            (id, (layer, expert))
            (announce_ownership_remove id layer expert ttl now (outbox, view)).1
          ≡ some (1, ts))
      × (lookup
            (id, (layer, expert))
            (ownership_view_put (ownership_delta id layer expert 1 ts) other)
          ≡ some (1, ts))
unfolding announce_ownership_remove
announce_ownership_remove-latest id layer expert ttl now outbox view other le =
    let k : OwnershipKey = (id, (layer, expert)) in
    let ts = max now (existing_ts (lookup k view) + 1) in
    (
      ts,
      omega arith,
      omega arith,
      refl,
      lookup-insert_self k (1, ts) view,
      lookup-ownership_view_put k (ownership_delta id layer expert 1 ts) other
          ∙ rw (==_refl k) (takes_over (lookup k other) ts (omega (arith, le))),
    )
