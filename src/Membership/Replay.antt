-- ===== src/Membership/Replay.antt =====
-- The transitions log is the history of the member table: `changes_since` gives an observer all that
-- it needs to follow `view`.
use mathlib.Core.List.{append-nil, append_assoc}
use model_shard.Prelude.{
  ℕ, ◌+◌, String, ◌≡◌, refl, sym, ◌∙◌, ap, some, List, [], ◌∷◌, ◌++◌, Dict, lookup, insert,
  string_eq, drop, length,
}
use model_shard.Membership.Records.{MemberRecord, StateTransition, OutgoingMessage}
use model_shard.Membership.Machine.{
  MembershipState, install, view, changes_since, transition_watermark,
}
use model_shard.Membership.Gossip.{revived}
use model_shard.Membership.Handlers.{state_of}
use model_shard.Membership.Tick.{Rng}
use model_shard.Membership.Spec.{Step, quiet, changes, refutes, Steps, here, next, IsWellFormed}
use model_shard.Membership.Runs.{Runs-returned}
use model_shard.Membership.Events.{Event, serve, serve-Runs}

-- From the table `d`, the transitions lead to the table `d'`, each with the true old state.
abbrev pub Explains :
    List StateTransition → Dict String MemberRecord → Dict String MemberRecord → Type 0
Explains [] d d' = d ≡ d'
Explains (x ∷ ts) d d' =
    (x.old_state ≡ state_of (lookup x.shard_id d))
    × Explains ts (insert x.shard_id x.new_record d) d'

Explains-snoc :
    (ts : List StateTransition) (x : StateTransition) (d d' : Dict String MemberRecord)
    → Explains ts d d'
    → x.old_state ≡ state_of (lookup x.shard_id d')
    → Explains (ts ++ x ∷ []) d (insert x.shard_id x.new_record d')
Explains-snoc [] x d d' h e =
    (e ∙ ap (λ m. state_of (lookup x.shard_id m)) (sym h), ap (insert x.shard_id x.new_record) h)
Explains-snoc (y ∷ ts) x d d' h e = (h.0, Explains-snoc ts x _ d' h.1 e)

-- The log has grown by transitions that explain the new table.
pub record Explained (s t : MembershipState) : Type 0 where
  pub news : List StateTransition
  pub grown : t.transitions ≡ s.transitions ++ news
  pub explains : Explains news s.members t.members

Explained-install :
    {s t : MembershipState} (k : String) (new : MemberRecord) (now : ℕ) (u : MembershipState)
    → Explained s t
    → u.members ≡ t.members
    → u.transitions ≡ t.transitions
    → Explained s (install k (state_of (lookup k t.members)) new now u)
unfolding install
Explained-install {s} {t} k new now u h e f =
    let x : StateTransition = record {
      shard_id = k;
      old_state = state_of (lookup k t.members);
      new_record = new;
    } in
    record {
      news = h.news ++ x ∷ [];
      grown = rw (f, h.grown) (append_assoc s.transitions h.news (x ∷ []));
      explains = rw e (Explains-snoc h.news x s.members t.members h.explains refl);
    }

Step-Explained : {s t u : MembershipState} → Explained s t → Step t u → Explained s u
Step-Explained h (quiet q) = record {
  news = h.news;
  grown = q.transitions ∙ h.grown;
  explains = rw q.members h.explains;
}
Step-Explained {t = t} h (changes now k new c e) = rw e (Explained-install k new now t h refl refl)
Step-Explained {t = t} h (refutes now d prev found about down fresh e) = rw e (
    rw found at (
      Explained-install t.self_id (revived prev t.self_id (d.incarnation + 1) now) now
        (record t { self_incarnation = d.incarnation + 1 }) h refl refl))

pub Steps-Explained : {s t : MembershipState} → Steps s t → Explained s t
Steps-Explained {s} here = record {
  news = [];
  grown = sym (append-nil s.transitions);
  explains = refl;
}
Steps-Explained (next r st) = Step-Explained (Steps-Explained r) st

pub drop-length {ℓ} : {A : Type ℓ} (xs ys : List A) → drop (length xs) (xs ++ ys) ≡ ys
drop-length [] ys = refl
drop-length (x ∷ xs) ys = drop-length xs ys

-- From a well-formed state s, whatever calls lead to t: the transitions that `changes_since` returns
-- for the watermark taken at s, applied in order to the view at s, give exactly the view at t, and
-- each of them carries the state that its member had just before it (none for a new member).
pub changes_since-Explains :
    (r : Rng) (es : List Event) (s t : MembershipState) (out : List OutgoingMessage)
    → IsWellFormed s
    → serve r es s ≡ some (out, t)
    → Explains (changes_since (transition_watermark s) t) (view s) (view t)
unfolding changes_since transition_watermark view
changes_since-Explains r es s t out w ran =
    let q =
      Runs-returned (serve r es) s out t (serve-Runs r es (record { well = w; steps = here }))
        ran in
    let h = Steps-Explained q.steps in rw (h.grown, drop-length s.transitions h.news) h.explains
