-- ===== src/Orchestrator/Complete.antt =====
-- What a fan-out that returns has: an output for every expert that was needed, whichever peers failed.
use model_shard.Prelude.{
  All, all, ℕ, String, ◌≡◌, refl, Bool, true, false, Option, none, some, List, [], ◌∷◌, any, elem,
  all-elem, ◌||◌, Dict, contains, string_eq, nat_eq, arith, inl, inr, Bool-cases,
}
use model_shard.Orchestrator.Gather.{
  Future, running, returned, failed, Poll, Gathered, complete, waiting, Awaited, Pass, still, broke,
  update, keep_waiting, first_aborted, take_one, take_done, after_pass, on_abort, gather_with_abort,
}
use model_shard.Orchestrator.Covered.{is_due, contains-update_old, contains-update_new}

-- A peer that returns gives an output for each expert that it was asked for, as the handler of such
-- requests does; the caller does not check it.
pub record Answers {Out : Type 0} (poll : Poll Out) : Type 0 where
  pub answers :
      (peer : String) (ids : List ℕ) (new : Dict ℕ Out)
      → poll.future peer ids ≡ returned new
      → all (λ e. contains e new) ids ≡ true

module _ {Out : Type 0} (e : ℕ) where
  abbrev stays_due : Pass Out → Bool
  stays_due (still asked outputs) = is_due e asked outputs
  stays_due (broke peer outputs) = true

  keep_waiting-due :
      (x : String × List ℕ) (p : Pass Out)
      → stays_due p ≡ true
      → stays_due (keep_waiting x p) ≡ true
  keep_waiting-due x (still asked outputs) h = ground (arith, h)
  keep_waiting-due x (broke peer outputs) h = refl

  keep_waiting-asked :
      (x : String × List ℕ) (p : Pass Out) → elem e x.1 ≡ true → stays_due (keep_waiting x p) ≡ true
  keep_waiting-asked x (still asked outputs) h = ground (arith, h)
  keep_waiting-asked x (broke peer outputs) h = refl

  take_one-due :
      (poll : Poll Out) (honest : Answers poll) (peer : String) (ids : List ℕ) (asked : Awaited)
      (outputs : Dict ℕ Out) (f : Future Out) (rest : Dict ℕ Out → Pass Out)
      → poll.future peer ids ≡ f
      → ((out : Dict ℕ Out) → is_due e asked out ≡ true → stays_due (rest out) ≡ true)
      → is_due e ((peer, ids) ∷ asked) outputs ≡ true
      → stays_due (take_one f (peer, ids) outputs rest) ≡ true
  take_one-due poll honest peer ids asked outputs failed rest found later h = refl
  take_one-due poll honest peer ids asked outputs running rest found later h =
      elim (Bool-cases (elem e ids)) [
        | inl here ↦ keep_waiting-asked (peer, ids) (rest outputs) here
        | inr past ↦
            keep_waiting-due (peer, ids) (rest outputs) (later outputs (ground (arith, h, past)))
      ]
  take_one-due poll honest peer ids asked outputs (returned new) rest found later h =
      later (update outputs new) (elim (Bool-cases (contains e outputs)) [
        | inl there ↦ rw (contains-update_old e new outputs there) refl
        | inr absent ↦ elim (Bool-cases (elem e ids)) [
          | inl here ↦
              let answered : contains e new ≡ true =
                all-elem (λ i. contains i new) ids e (honest.answers peer ids new found) here in
              rw (contains-update_new e new outputs answered) refl
          | inr past ↦ ground (arith, h, absent, past)
        ]
      ])

  take_done-due :
      (poll : Poll Out) (honest : Answers poll) (asked : Awaited) (outputs : Dict ℕ Out)
      → is_due e asked outputs ≡ true
      → stays_due (take_done poll.future asked outputs) ≡ true
  unfolding take_done
  take_done-due poll honest [] outputs h = h
  take_done-due poll honest ((peer, ids) ∷ asked) outputs h =
      take_one-due poll honest peer ids asked outputs (poll.future peer ids)
        (take_done poll.future asked) refl (take_done-due poll honest asked) h

  abbrev pub Waits : (Awaited → Dict ℕ Out → Gathered × Dict ℕ Out) → Type 0
  Waits next =
      (asked : Awaited) (outputs : Dict ℕ Out)
      → is_due e asked outputs ≡ true
      → (next asked outputs).0 ≡ complete
      → contains e (next asked outputs).1 ≡ true

  after_pass-complete :
      (timed_out : Bool) (p : Pass Out) (next : Awaited → Dict ℕ Out → Gathered × Dict ℕ Out)
      → Waits next
      → stays_due p ≡ true
      → (after_pass timed_out p next).0 ≡ complete
      → contains e (after_pass timed_out p next).1 ≡ true
  after_pass-complete t (broke peer outputs) next w h done = cc
  after_pass-complete t (still [] outputs) next w h done = ground (arith, h)
  after_pass-complete true (still ((peer, ids) ∷ asked) outputs) next w h done = cc
  after_pass-complete false (still ((peer, ids) ∷ asked) outputs) next w h done =
      w ((peer, ids) ∷ asked) outputs h done

  on_abort-complete :
      (failed_peer : Option String) (outputs : Dict ℕ Out) (next : Gathered × Dict ℕ Out)
      → (next.0 ≡ complete → contains e next.1 ≡ true)
      → (on_abort failed_peer outputs next).0 ≡ complete
      → contains e (on_abort failed_peer outputs next).1 ≡ true
  on_abort-complete none outputs next w done = w done
  on_abort-complete (some peer) outputs next w done = cc

  pub gather_complete :
      (polls : List (Poll Out)) (events : List String)
      → All Answers polls
      → Waits (gather_with_abort polls events)
  unfolding gather_with_abort
  gather_complete polls events honest [] outputs h done = ground (arith, h)
  gather_complete [] events honest (x ∷ asked) outputs h done = cc
  gather_complete (poll ∷ polls) events honest (x ∷ asked) outputs h done =
      on_abort-complete (first_aborted poll.left_alive events (x ∷ asked)) outputs _
        (after_pass-complete poll.timed_out (take_done poll.future (x ∷ asked) outputs)
          (gather_with_abort polls events) (gather_complete polls events honest.1)
          (take_done-due poll honest.0 (x ∷ asked) outputs h))
        done

module _ {Out : Type 0} where
  after_pass-ends :
      (timed_out last : Bool) (p : Pass Out) (next : Awaited → Dict ℕ Out → Gathered × Dict ℕ Out)
      → ((asked : Awaited) (outputs : Dict ℕ Out)
          → last ≡ true
          → ¬ ((next asked outputs).0 ≡ waiting))
      → (timed_out || last) ≡ true
      → ¬ ((after_pass timed_out p next).0 ≡ waiting)
  after_pass-ends t last (broke peer outputs) next ends h = λ k. cc
  after_pass-ends t last (still [] outputs) next ends h = λ k. cc
  after_pass-ends true last (still ((peer, ids) ∷ asked) outputs) next ends h = λ k. cc
  after_pass-ends false last (still ((peer, ids) ∷ asked) outputs) next ends h =
      ends ((peer, ids) ∷ asked) outputs h

  on_abort-ends :
      (failed_peer : Option String) (outputs : Dict ℕ Out) (next : Gathered × Dict ℕ Out)
      → ¬ (next.0 ≡ waiting)
      → ¬ ((on_abort failed_peer outputs next).0 ≡ waiting)
  on_abort-ends none outputs next h = h
  on_abort-ends (some peer) outputs next h = λ k. cc

  -- A loop whose deadline passes ends.
  pub gather_ends :
      (polls : List (Poll Out)) (events : List String) (asked : Awaited) (outputs : Dict ℕ Out)
      → any (λ p. p.timed_out) polls ≡ true
      → ¬ ((gather_with_abort polls events asked outputs).0 ≡ waiting)
  unfolding gather_with_abort
  gather_ends polls events [] outputs h = λ k. cc
  gather_ends [] events (x ∷ asked) outputs h = cc
  gather_ends (poll ∷ polls) events (x ∷ asked) outputs h =
      on_abort-ends (first_aborted poll.left_alive events (x ∷ asked)) outputs _ (
        after_pass-ends poll.timed_out (any (λ p. p.timed_out) polls)
          (take_done poll.future (x ∷ asked) outputs) (gather_with_abort polls events)
          (gather_ends polls events) h)
