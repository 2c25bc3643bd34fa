-- ===== src/Node/Stream.antt =====
-- What a client is sent, and the state of the request objects that fits it.
use mathlib.Core.Option.{some-ne-none}
use model_shard.Prelude.Maybe.{value-same}
use model_shard.Prelude.{
  ℕ, ◌+◌, ◌≤◌, ◌<◌, String, ◌≡◌, refl, sym, ap, ◌∙◌, Bool, true, false, none, some, List, [], ◌∷◌,
  ◌++◌, append_nil, leb, ◌==◌, if◌then◌else◌, Dict, lookup, insert, erase, contains, lookup-insert,
  nat_eq, arith, inl, inr, Bool-cases, nat_equals_iff, ==_refl, lookup-erase,
}
use model_shard.Node.Requests.{
  HeadRequestState, Output, sampled_token, error_to_client, activation, end_request,
  outbound_closed, Tables, emit,
}

-- (token, position, is_final), for the client of one request object.
abbrev pub tokens_to : ℕ → List Output → List (ℕ × ℕ × Bool)
tokens_to ref [] = []
tokens_to ref (sampled_token r rid n position is_final ∷ os) =
    let rest = tokens_to ref os in if r == ref then (n, position, is_final) ∷ rest else rest
tokens_to ref (error_to_client rid code ∷ os) = tokens_to ref os
tokens_to ref (activation rid ∷ os) = tokens_to ref os
tokens_to ref (end_request rid ∷ os) = tokens_to ref os
tokens_to ref (outbound_closed ∷ os) = tokens_to ref os

-- The positions count up from 0, and the last of `max` is marked, and no other.
pub data IsStream (max : ℕ) : List (ℕ × ℕ × Bool) → ℕ → Type 0 where
  empty : IsStream max [] 0
  more :
      {ms : List (ℕ × ℕ × Bool)} {g : ℕ}
      → IsStream max ms g
      → (n : ℕ) → g < max
      → IsStream max (ms ++ (n, g, leb max (g + 1)) ∷ []) (g + 1)

tokens_to-append :
    (ref : ℕ) (xs ys : List Output)
    → tokens_to ref (xs ++ ys) ≡ tokens_to ref xs ++ tokens_to ref ys
tokens_to-append ref [] ys = refl
tokens_to-append ref (sampled_token r rid n position is_final ∷ xs) ys =
    elim (Bool-cases (r == ref)) [
      | inl same ↦ rw (same, tokens_to-append ref xs ys) refl
      | inr other ↦ rw (other, tokens_to-append ref xs ys) refl
    ]
tokens_to-append ref (error_to_client rid code ∷ xs) ys = tokens_to-append ref xs ys
tokens_to-append ref (activation rid ∷ xs) ys = tokens_to-append ref xs ys
tokens_to-append ref (end_request rid ∷ xs) ys = tokens_to-append ref xs ys
tokens_to-append ref (outbound_closed ∷ xs) ys = tokens_to-append ref xs ys

-- An output that is no token.
abbrev pub IsSilent : Output → Type 0
IsSilent o = (ref : ℕ) → tokens_to ref (o ∷ []) ≡ []

pub tokens_to-silent :
    (ref : ℕ) (os : List Output) (o : Output)
    → IsSilent o
    → tokens_to ref (os ++ o ∷ []) ≡ tokens_to ref os
tokens_to-silent ref os o quiet =
    tokens_to-append ref os (o ∷ []) ∙ ap (λ ms. tokens_to ref os ++ ms) (quiet ref) ∙ append_nil _

pub tokens_to-own :
    (ref : ℕ) (os : List Output) (rid : String) (n g : ℕ) (final : Bool)
    → tokens_to ref (os ++ sampled_token ref rid n g final ∷ [])
      ≡ tokens_to ref os ++ (n, g, final) ∷ []
tokens_to-own ref os rid n g final =
    tokens_to-append ref os (sampled_token ref rid n g final ∷ []) ∙ rw (==_refl ref) refl

pub tokens_to-other :
    (ref r : ℕ) (os : List Output) (rid : String) (n g : ℕ) (final : Bool)
    → (r == ref) ≡ false
    → tokens_to ref (os ++ sampled_token r rid n g final ∷ []) ≡ tokens_to ref os
tokens_to-other ref r os rid n g final other =
    tokens_to-append ref os (sampled_token r rid n g final ∷ []) ∙ rw other (append_nil _)

-- The loops that run are those of `loops`. Each request object has been served a stream; while its loop
-- runs, as long as its counter says. An object that is not there yet has been served nothing.
pub record IsStreamed {Cache : Type 0} (loops : Dict ℕ String) (t : Tables Cache) : Type 0 where
  pub served :
      (ref : ℕ) (st : HeadRequestState)
      → lookup ref t.objects ≡ some st
      → (g : ℕ) × IsStream st.max_new_tokens (tokens_to ref t.sent) g
        × (contains ref loops ≡ true → g ≡ st.generated)
  pub fresh :
      (ref : ℕ) → t.next_ref ≤ ref → (lookup ref t.objects ≡ none) × (tokens_to ref t.sent ≡ [])

-- Fewer loops run.
pub weaken-IsStreamed :
    {Cache : Type 0} (loops fewer : Dict ℕ String) (t : Tables Cache)
    → ((ref : ℕ) → contains ref fewer ≡ true → contains ref loops ≡ true)
    → IsStreamed loops t
    → IsStreamed fewer t
weaken-IsStreamed loops fewer t among h = record {
  served = λ ref st found.
      let (g, stream, exact) = h.served ref st found in (g, stream, λ runs. exact (among ref runs));
  fresh = h.fresh;
}

contains-erase :
    (r ref : ℕ) (loops : Dict ℕ String)
    → contains ref (erase r loops) ≡ true
    → contains ref loops ≡ true
unfolding contains
contains-erase r ref loops h = ground (arith, lookup-erase r ref loops)

pub contains-erase_self : (ref : ℕ) (loops : Dict ℕ String) → contains ref (erase ref loops) ≡ false
unfolding contains
contains-erase_self ref loops = ground (arith, lookup-erase ref ref loops, ==_refl ref)

module _ {Cache : Type 0} (loops : Dict ℕ String) where
  pub erase-IsStreamed :
      (r : ℕ) (t : Tables Cache) → IsStreamed loops t → IsStreamed (erase r loops) t
  erase-IsStreamed r t h =
      weaken-IsStreamed loops (erase r loops) t (λ ref runs. contains-erase r ref loops runs) h

  pub emit-IsStreamed :
      (up : Bool) (o : Output) (t : Tables Cache)
      → IsSilent o
      → IsStreamed loops t
      → IsStreamed loops (emit up o t)
  emit-IsStreamed false o t quiet h = h
  emit-IsStreamed true o t quiet h = record {
    served = λ ref st found. rw (tokens_to-silent ref t.sent o quiet) (h.served ref st found);
    fresh = λ ref late.
        let (absent, nothing) = h.fresh ref late in
        (absent, tokens_to-silent ref t.sent o quiet ∙ nothing);
  }

  -- An object is changed, and only its own client is served.
  pub update-IsStreamed :
      (t : Tables Cache) (r : ℕ) (st st' : HeadRequestState) (sent : List Output)
      → IsStreamed loops t
      → lookup r t.objects ≡ some st
      → (g : ℕ) × IsStream st'.max_new_tokens (tokens_to r sent) g
        × (contains r loops ≡ true → g ≡ st'.generated)
      → ((ref : ℕ) → (r == ref) ≡ false → tokens_to ref sent ≡ tokens_to ref t.sent)
      → IsStreamed loops (record t { objects = insert r st' t.objects; sent = sent })
  update-IsStreamed t r st st' sent h there stream others = record {
    served = λ ref st'' found. elim (Bool-cases (r == ref)) [
      | inl same ↦
          let key : r ≡ ref = (nat_equals_iff r ref).0 same in
          let value : st' ≡ st'' =
            value-same (rw (lookup-insert r ref st' t.objects, same) at found) in
          rw (← key, ← value) stream
      | inr other ↦
          rw (others ref other)
            (h.served ref st'' (rw (lookup-insert r ref st' t.objects, other) at found))
    ];
    fresh = λ ref late.
        let (absent, nothing) = h.fresh ref late in
        elim (Bool-cases (r == ref)) [
          | inl same ↦
              let key : r ≡ ref = (nat_equals_iff r ref).0 same in
              absurd (some-ne-none st (sym there ∙ rw key absent))
          | inr other ↦
              (rw (lookup-insert r ref st' t.objects, other) absent, others ref other ∙ nothing)
        ];
  }
