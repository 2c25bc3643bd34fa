-- ===== src/Membership/Merge.antt =====
-- Gossip about a member is merged by taking the highest rank, a rank being an incarnation and, within
-- one incarnation, a severity.
pub mod Step
pub mod Converge
use Prim.Native.Nat.{max}
use mathlib.Core.List.{Perm, Permᴰ}
use mathlib.Core.Logic.{∥∥₁_elim}
use native.Mathlib.Nat.{ℕ_set}
use model_shard.Prelude.{
  ℕ, ◌+◌, ◌*◌, ◌≤◌, String, ◌≡◌, refl, ap, ◌∙◌, Bool, Option, none, some, List, [], ◌∷◌, ◌==◌,
  string_eq, arith, ltb, ◌&&◌, if◌then◌else◌,
}
use model_shard.Membership.Records.{MemberState, severity, MemberRecord}
use model_shard.Membership.Machine.{MembershipState}
use model_shard.Membership.Gossip.{supersedes, admit}

-- Incarnations in order, and within each the three states in order of severity.
abbrev pub rank : MemberRecord → ℕ
rank r = r.incarnation * 3 + severity r.state

abbrev pub rank_of : Option MemberRecord → ℕ
rank_of none = 0
rank_of (some r) = rank r

severity_bound : (st : MemberState) → severity st ≤ 2
severity_bound st = ground arith

-- The test of `_maybe_apply_peer_delta` is the order of ranks.
pub supersedes_iff : (d prev : MemberRecord) → supersedes d prev ≡ ltb (rank prev) (rank d)
supersedes_iff d prev = ground (arith, severity_bound d.state, severity_bound prev.state)

-- Gossip that counts for `k` at a node: about `k`, and admitted.
abbrev pub counts : MembershipState → String → MemberRecord → Bool
counts s k d = d.shard_id == k && admit s d

-- The highest rank among a start and the gossip that counts.
abbrev pub highest : (MemberRecord → Bool) → ℕ → List MemberRecord → ℕ
highest p start [] = start
highest p start (d ∷ ds) = highest p (if p d then max start (rank d) else start) ds

highest-Permᴰ :
    (p : MemberRecord → Bool) {xs ys : List MemberRecord} (start : ℕ)
    → Permᴰ xs ys
    → highest p start xs ≡ highest p start ys
highest-Permᴰ p start Permᴰ.nil = refl
highest-Permᴰ p start (Permᴰ.cons {a = a} {b = b} e h) = rw e (highest-Permᴰ p _ h)
highest-Permᴰ p start (Permᴰ.swap {a = a} {b = b} {l = l} e f) =
    rw (e, f) (ap (λ (n : ℕ). highest p n l) (ground arith))
highest-Permᴰ p start (Permᴰ.trans h k) = highest-Permᴰ p start h ∙ highest-Permᴰ p start k

pub highest-Perm :
    (p : MemberRecord → Bool) {xs ys : List MemberRecord} (start : ℕ)
    → Perm xs ys
    → highest p start xs ≡ highest p start ys
highest-Perm p start h = ∥∥₁_elim h (ℕ_set _ _) (highest-Permᴰ p start)

-- What a node believes of a member: its incarnation and its state.
abbrev pub verdict : Option MemberRecord → Option (ℕ × MemberState)
verdict none = none
verdict (some r) = some (r.incarnation, r.state)

-- Known members of equal rank have the same verdict.
pub rank-injective : (r q : MemberRecord) → rank r ≡ rank q → verdict (some r) ≡ verdict (some q)
rank-injective r q e = ground arith
