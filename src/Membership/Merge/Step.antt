-- ===== src/Membership/Merge/Step.antt =====
-- What one piece of gossip, and a list of them, does to the rank of a member.
use Prim.Native.Nat.{max}
use mathlib.Core.Path.{fun_ext}
use model_shard.Prelude.{
  ℕ, ◌+◌, String, ◌≡◌, refl, ap, ◌∙◌, Bool, true, false, Option, some, List, [], ◌∷◌, ◌==◌, ==_iff,
  lookup, lookup-insert, lookup-of_contains, contains, string_eq, arith, ltb, not, ◌&&◌, ◌||◌,
  if◌then◌else◌,
}
use model_shard.Membership.Records.{MemberState, MemberRecord}
use model_shard.Membership.Machine.{MembershipState, for_each, install}
use model_shard.Membership.Gossip.{
  is_alive, revived, supersedes, admit, maybe_refute, maybe_apply_peer_delta, apply_delta,
}
use model_shard.Membership.Spec.{IsWellFormed, is_peer, Reached}
use model_shard.Membership.Runs.{
  Runs, Runs-pure, Runs-if, Runs-bind, Runs-gets-bind, Runs-modify, Runs-modify-bind,
  Runs-member_of-bind, Runs-both, Runs-weaken,
}
use model_shard.Membership.WellFormed.{Reached-start, Reached-trans, Steps-is_peer}
use model_shard.Membership.Refines.Gossip.{apply_delta-Runs}
use model_shard.Membership.Safety.{own_record}
use model_shard.Membership.Merge.{rank, rank_of, supersedes_iff, counts, highest}

-- From `s` to `t` the rank of `k` has become `n`, and what decides admission stands.
pub record Ranked (k : String) (s : MembershipState) (n : ℕ) (t : MembershipState) : Type 0 where
  pub same_id : t.self_id ≡ s.self_id
  pub same_model : t.local_model_id ≡ s.local_model_id
  pub rank_at : rank_of (lookup k t.members) ≡ n

-- The three cases of one delta: `about` the member or not, `fit` for admission or not.
skipped : (about fit : Bool) (y x : ℕ) → not fit ≡ true → y ≡ (if about && fit then max y x else y)
skipped about fit y x h = ground arith

raised :
    (about fit : Bool) (y x p : ℕ) {newer : Bool}
    → not fit ≡ false
    → (about ≡ true → y ≡ p)
    → newer ≡ ltb p x
    → newer ≡ true
    → (if about && fit then max y x else y) ≡ (if about then x else y)
raised true fit y x p h e t n = let e' : y ≡ p = e refl in ground arith
raised false fit y x p h e t n = refl

kept :
    (about fit : Bool) (y x p : ℕ) {newer : Bool}
    → (about ≡ true → y ≡ p)
    → newer ≡ ltb p x
    → newer ≡ false
    → y ≡ (if about && fit then max y x else y)
kept true fit y x p e t n = let e' : y ≡ p = e refl in ground arith
kept false fit y x p e t n = refl

module _ (k : String) (s : MembershipState) (now : ℕ) where
  abbrev current : ℕ
  current = rank_of (lookup k s.members)

  Ranked-same : (n : ℕ) → current ≡ n → Ranked k s n s
  Ranked-same n e = record { same_id = refl; same_model = refl; rank_at = e }

  Ranked-install :
      (j : String) (old : Option MemberState) (new : MemberRecord) (n : ℕ)
      → n ≡ (if j == k then rank new else current)
      → Ranked k s n (install j old new now s)
  unfolding install
  Ranked-install j old new n e = record {
    same_id = refl;
    same_model = refl;
    rank_at = ground (arith, lookup-insert j k new s.members);
  }

  Ranked-refuted :
      (own : MemberRecord) (incarnation : ℕ)
      → (k == s.self_id) ≡ false
      → Ranked k s current (
          install s.self_id
            (some own.state)
            (revived own s.self_id incarnation now)
            now
            (record s { self_incarnation = incarnation }))
  unfolding install
  Ranked-refuted own incarnation other = record {
    same_id = refl;
    same_model = refl;
    rank_at = ground (
      arith,
      lookup-insert s.self_id k (revived own s.self_id incarnation now) s.members,
      ==_iff s.self_id k,
      ==_iff k s.self_id,
    );
  }

  current-eq :
      (d prev : MemberRecord)
      → lookup d.shard_id s.members ≡ some prev
      → (d.shard_id == k) ≡ true
      → current ≡ rank prev
  current-eq d prev found same =
      let e : d.shard_id ≡ k = (==_iff d.shard_id k).0 same in
      let here : lookup k s.members ≡ some prev = rw e at found in ap rank_of here

  maybe_refute-Ranked :
      (d : MemberRecord)
      → IsWellFormed s
      → (k == s.self_id) ≡ false
      → Runs (λ _. Ranked k s current) (maybe_refute d now) s
  unfolding maybe_refute
  maybe_refute-Ranked d w other =
      let (own, found) = own_record w in
      Runs-gets-bind _ _ (
        Runs-if (is_alive d.state || ltb d.incarnation s.self_incarnation)
          (λ quiet. Runs-pure tt (Ranked-same _ refl))
          (λ claim. Runs-modify-bind _ _ (
            Runs-member_of-bind s.self_id own _ found
              (Runs-modify _ (Ranked-refuted own (d.incarnation + 1) other)))))

  maybe_apply_peer_delta-Ranked :
      (d : MemberRecord)
      → contains d.shard_id s.members ≡ true
      → Runs
          (λ _. Ranked k s (if counts s k d then max current (rank d) else current))
          (maybe_apply_peer_delta d now)
          s
  unfolding maybe_apply_peer_delta
  maybe_apply_peer_delta-Ranked d known =
      let (prev, found) = lookup-of_contains d.shard_id s.members known in
      Runs-gets-bind _ _ (
        Runs-if (not (admit s d))
          (λ foreign.
            Runs-pure tt (Ranked-same _ (skipped (d.shard_id == k) (admit s d) _ _ foreign)))
          (λ fit. Runs-member_of-bind d.shard_id prev _ found (
            Runs-if (supersedes d prev)
              (λ newer. Runs-modify _ (
                Ranked-install d.shard_id _ _ _ (
                  raised (d.shard_id == k) (admit s d) current (rank d) (rank prev) fit
                    (current-eq d prev found) (supersedes_iff d prev) newer)))
              (λ stale. Runs-pure tt (
                Ranked-same _ (
                  kept (d.shard_id == k) (admit s d) current (rank d) (rank prev)
                    (current-eq d prev found) (supersedes_iff d prev) stale))))))

  absent :
      (d : MemberRecord)
      → contains d.shard_id s.members ≡ false
      → contains k s.members ≡ true
      → current ≡ (if counts s k d then max current (rank d) else current)
  absent d unknown known =
      let differs : (d.shard_id == k) ≡ false = ground (arith, ==_iff d.shard_id k) in rw differs

  apply_delta-Ranked :
      (d : MemberRecord)
      → IsWellFormed s
      → (k == s.self_id) ≡ false
      → contains k s.members ≡ true
      → Runs
          (λ _. Ranked k s (if counts s k d then max current (rank d) else current))
          (apply_delta now d)
          s
  unfolding apply_delta
  apply_delta-Ranked d w other known = Runs-gets-bind _ _ (
      Runs-if (d.shard_id == s.self_id)
        (λ own.
          let differs : (d.shard_id == k) ≡ false =
            ground (arith, ==_iff d.shard_id s.self_id, ==_iff d.shard_id k, ==_iff k s.self_id) in
          rw differs (maybe_refute-Ranked d w other))
        (λ foreign.
          Runs-if (contains d.shard_id s.members) (λ there. maybe_apply_peer_delta-Ranked d there)
            (λ unknown. Runs-pure tt (Ranked-same _ (absent d unknown known)))))

counts-Ranked :
    {k : String} {s t : MembershipState} {n : ℕ} (d : MemberRecord)
    → Ranked k s n t
    → counts t k d ≡ counts s k d
unfolding admit
counts-Ranked d h = rw h.same_model

highest-Ranked :
    {k : String} {s t : MembershipState} {n : ℕ} (start : ℕ) (ds : List MemberRecord)
    → Ranked k s n t
    → highest (counts t k) start ds ≡ highest (counts s k) start ds
highest-Ranked {k} {s} {t} start ds h =
    let same : counts t k ≡ counts s k = fun_ext (λ d. counts-Ranked d h) in
    ap (λ (p : MemberRecord → Bool). highest p start ds) same

-- One delta, and then the rest.
Ranked-trans :
    {k : String} {s t u : MembershipState} {n : ℕ} (ds : List MemberRecord)
    → Ranked k s n t
    → Ranked k t (highest (counts t k) (rank_of (lookup k t.members)) ds) u
    → Ranked k s (highest (counts s k) n ds) u
Ranked-trans {k} {s} ds h g = record {
  same_id = g.same_id ∙ h.same_id;
  same_model = g.same_model ∙ h.same_model;
  rank_at = g.rank_at ∙ highest-Ranked _ ds h ∙ ap (λ m. highest (counts s k) m ds) h.rank_at;
}

-- Well formed, with the rank of `k` at `n`, and the rest that decides about gossip as in `s`.
abbrev pub Merged : String → MembershipState → ℕ → MembershipState → Type 0
Merged k s n t = Reached s t × Ranked k s n t

pub for_each-Merged :
    (k : String) (now : ℕ) (ds : List MemberRecord) (s : MembershipState)
    → Reached s s
    → is_peer s k ≡ true
    → Runs
        (λ _. Merged k s (highest (counts s k) (rank_of (lookup k s.members)) ds))
        (for_each ds (apply_delta now))
        s
unfolding for_each
for_each-Merged k now [] s q peer = Runs-pure tt (q, Ranked-same k s now _ refl)
for_each-Merged k now (d ∷ ds) s q peer =
    Runs-bind
      (Runs-both (apply_delta-Runs now d s q)
        (apply_delta-Ranked k s now d q.well (ground arith) (ground arith)))
      λ _ t h.
        Runs-weaken
          (for_each-Merged k now ds t (Reached-start h.0) (Steps-is_peer k h.0.steps peer))
          (λ _ u g. (Reached-trans h.0 g.0, Ranked-trans ds h.1 g.1))
