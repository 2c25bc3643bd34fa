-- ===== src/Membership/Runs.antt =====
-- What a method of `MembershipState` does from one state: it returns, and its final state has `P`.
-- One rule for each way to build a method.
use model_shard.Prelude.{
  String, ◌≡◌, refl, Bool, true, false, Option, none, some, List, [], ◌∷◌, lookup, string_eq,
  if◌then◌else◌,
}
use model_shard.Membership.Records.{MemberRecord}
use model_shard.Membership.Machine.{
  MembershipState, M, pure, gets, modify, member_of, ◌>>=◌, for_each,
}

abbrev pub Returns :
    {A : Type 0} → (A → MembershipState → Type 0) → Option (A × MembershipState) → Type 0
Returns Q none = ⊥
Returns Q (some (a, s)) = Q a s

-- Run from `s`, the method returns, with a value and a state that `Q` relates.
pub record Runs {A : Type 0} (Q : A → MembershipState → Type 0) (m : M A) (s : MembershipState)
    : Type 0 where
  pub returns : Returns Q (m s)

module _ {A : Type 0} {Q : A → MembershipState → Type 0} {s : MembershipState} where
  pub Runs-pure : (a : A) → Q a s → Runs Q (pure a) s
  unfolding pure
  Runs-pure a h = record { returns = h }

  pub Runs-if :
      (b : Bool) {m n : M A}
      → (b ≡ true → Runs Q m s)
      → (b ≡ false → Runs Q n s)
      → Runs Q (if b then m else n) s
  Runs-if true h k = h refl
  Runs-if false h k = k refl

  pub Runs-weaken :
      {R : A → MembershipState → Type 0} {m : M A}
      → Runs R m s
      → ((a : A) (t : MembershipState) → R a t → Q a t)
      → Runs Q m s
  Runs-weaken {R} {m} h k = record { returns = go (m s) h.returns }
    where
      go : (r : Option (A × MembershipState)) → Returns R r → Returns Q r
      go none x = x
      go (some (a, t)) x = k a t x

pub Runs-gets :
    {B : Type 0} {Q : B → MembershipState → Type 0} {s : MembershipState} (f : MembershipState → B)
    → Q (f s) s
    → Runs Q (gets f) s
unfolding gets
Runs-gets f h = record { returns = h }

pub Runs-modify :
    {Q : Unit {0} → MembershipState → Type 0} {s : MembershipState}
    (f : MembershipState → MembershipState)
    → Q tt (f s)
    → Runs Q (modify f) s
unfolding modify
Runs-modify f h = record { returns = h }

module _ {A B : Type 0} {Q : B → MembershipState → Type 0} {s : MembershipState} where
  pub Runs-bind :
      {R : A → MembershipState → Type 0} {m : M A} {f : A → M B}
      → Runs R m s
      → ((a : A) (t : MembershipState) → R a t → Runs Q (f a) t)
      → Runs Q (m >>= f) s
  unfolding ◌>>=◌
  Runs-bind {R} {m} {f} h k = record { returns = go (m s) h.returns }
    where
      go :
          (r : Option (A × MembershipState))
          → Returns R r
          → Returns Q (elim r [ none ↦ none | some (a, s') ↦ f a s' ])
      go none x = x
      go (some (a, t)) x = (k a t x).returns

  pub Runs-gets-bind :
      (f : MembershipState → A) (g : A → M B) → Runs Q (g (f s)) s → Runs Q (gets f >>= g) s
  unfolding ◌>>=◌
  Runs-gets-bind f g h = record { returns = h.returns }

module _ {B : Type 0} {Q : B → MembershipState → Type 0} {s : MembershipState} where
  pub Runs-modify-bind :
      (f : MembershipState → MembershipState) (g : Unit {0} → M B)
      → Runs Q (g tt) (f s)
      → Runs Q (modify f >>= g) s
  unfolding ◌>>=◌
  Runs-modify-bind f g h = record { returns = h.returns }

  pub Runs-member_of-bind :
      (k : String) (r : MemberRecord) (g : MemberRecord → M B)
      → lookup k s.members ≡ some r
      → Runs Q (g r) s
      → Runs Q (member_of k >>= g) s
  unfolding ◌>>=◌
  Runs-member_of-bind k r g e h = record { returns = rw (e, Returns, ◌>>=◌, member_of) h.returns }

-- A loop keeps what its body keeps.
pub Runs-for_each {ℓ} :
    {A : Type ℓ} {P : MembershipState → Type 0} (xs : List A) {body : A → M (Unit {0})}
    → ((x : A) (s : MembershipState) → P s → Runs (λ _. P) (body x) s)
    → (s : MembershipState) → P s
    → Runs (λ _. P) (for_each xs body) s
unfolding for_each
Runs-for_each [] step s h = Runs-pure tt h
Runs-for_each (x ∷ xs) step s h = Runs-bind (step x s h) (λ _ t k. Runs-for_each xs step t k)

-- The value and the state with which it returns.
pub Runs-some :
    {A : Type 0} {Q : A → MembershipState → Type 0} (m : M A) (s : MembershipState)
    → Runs Q m s
    → (a : A) × (t : MembershipState) × (m s ≡ some (a, t)) × Q a t
Runs-some {A} {Q} m s h = go (m s) refl h.returns
  where
    go :
        (r : Option (A × MembershipState))
        → m s ≡ r
        → Returns Q r
        → (a : A) × (t : MembershipState) × (m s ≡ some (a, t)) × Q a t
    go none e x = elim x [ ]
    go (some (a, t)) e x = (a, t, e, x)

-- What holds of every run holds of the one that returned.
pub Runs-returned :
    {A : Type 0} {Q : A → MembershipState → Type 0} (m : M A) (s : MembershipState) (a : A)
    (t : MembershipState)
    → Runs Q m s
    → m s ≡ some (a, t)
    → Q a t
Runs-returned {Q = Q} m s a t h e = let x : Returns Q (some (a, t)) = rw e at h.returns in x

-- Two facts about one run.
pub Runs-both :
    {A : Type 0} {Q R : A → MembershipState → Type 0} {m : M A} {s : MembershipState}
    → Runs Q m s
    → Runs R m s
    → Runs (λ a t. Q a t × R a t) m s
Runs-both {A} {Q} {R} {m} {s} h k = record { returns = go (m s) h.returns k.returns }
  where
    go :
        (r : Option (A × MembershipState))
        → Returns Q r
        → Returns R r
        → Returns (λ a t. Q a t × R a t) r
    go none x y = x
    go (some (a, t)) x y = (x, y)
