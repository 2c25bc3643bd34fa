-- ===== src/Orchestrator/Covered.antt =====
-- What a completed fan-out has: an output for every expert that was needed.
use model_shard.Prelude.{
  ℕ, String, ◌≡◌, refl, ap, ◌∙◌, Bool, true, false, some, List, [], ◌∷◌, ◌++◌, any, elem, elem_head,
  elem-append, ◌||◌, ◌==◌, ==_iff, Dict, lookup, insert, erase, contains, contains-insert,
  HasDistinctKeys, HasDistinctKeys-insert, string_eq, nat_eq, arith, inl, inr, Bool-cases,
}
use model_shard.Prelude.Maybe.{some->>=, value-same}
use model_shard.Routing.Group.{ids_of, put_id, Sampler, winner_of, group_loaded}
use model_shard.Orchestrator.Gather.{Awaited, update}

-- Some peer of the group is asked for the expert.
abbrev pub is_asked : ℕ → Awaited → Bool
is_asked e asked = any (λ x. elem e x.1) asked

is_asked-insert_new :
    (e : ℕ) (k : String) (ids : List ℕ) (d : Awaited)
    → elem e ids ≡ true
    → is_asked e (insert k ids d) ≡ true
unfolding insert
is_asked-insert_new e k ids [] h = ground (arith, h)
is_asked-insert_new e k ids ((j, js) ∷ d) h = elim (Bool-cases (j == k)) [
  | inl same ↦ rw same (ground (arith, h))
  | inr other ↦ rw other (ground (arith, is_asked-insert_new e k ids d h))
]

is_asked-insert_old :
    (e : ℕ) (k : String) (ids : List ℕ) (d : Awaited)
    → (elem e (ids_of k d) ≡ true → elem e ids ≡ true)
    → is_asked e d ≡ true
    → is_asked e (insert k ids d) ≡ true
unfolding insert lookup
is_asked-insert_old e k ids [] g h = ground (arith, h)
is_asked-insert_old e k ids ((j, js) ∷ d) g h = elim (Bool-cases (j == k)) [
  | inl same ↦ rw same (ground (arith, g, h, same))
  | inr other ↦
      let kept : elem e (ids_of k d) ≡ true → elem e ids ≡ true = λ there. g (rw other there) in
      elim (Bool-cases (elem e js)) [
        | inl here ↦ rw other (rw here refl)
        | inr past ↦
            rw other (rw past (is_asked-insert_old e k ids d kept (ground (arith, h, past))))
      ]
]

is_asked-put_new : (e : ℕ) (k : String) (d : Awaited) → is_asked e (put_id k e d) ≡ true
is_asked-put_new e k d =
    is_asked-insert_new e k (ids_of k d ++ e ∷ []) d
      (elem-append e (ids_of k d) (e ∷ []) ∙ ground (arith, elem_head e []))

is_asked-put_old :
    (e eid : ℕ) (k : String) (d : Awaited)
    → is_asked e d ≡ true
    → is_asked e (put_id k eid d) ≡ true
is_asked-put_old e eid k d =
    is_asked-insert_old e k (ids_of k d ++ eid ∷ []) d
      (λ there. elem-append e (ids_of k d) (eid ∷ []) ∙ rw there refl)

-- The groups ask for each of the ids, and for what they asked before.
pub group_loaded-asks :
    (r : Sampler) (load : String → ℕ) (candidates : ℕ → List String) (e : ℕ) (ids : List ℕ) (g : ℕ)
    (start d : Awaited)
    → group_loaded r load candidates ids g start ≡ some d
    → HasDistinctKeys start
    → HasDistinctKeys d × ((is_asked e start || elem e ids) ≡ true → is_asked e d ≡ true)
unfolding group_loaded
group_loaded-asks r load candidates e [] g start d h distinct =
    let same : start ≡ d = value-same h in rw (← same) (distinct, λ there. ground (arith, there))
group_loaded-asks r load candidates e (eid ∷ eids) g start d h distinct =
    let (w, won, rest) = some->>= (winner_of r load (candidates eid) g) _ d h in
    let start' = put_id w.0 eid start in
    let (distinct', asks) =
      group_loaded-asks r load candidates e eids w.1 start' d rest
        (HasDistinctKeys-insert w.0 (ids_of w.0 start ++ eid ∷ []) start distinct) in
    (
      distinct',
      λ there. elim (Bool-cases (is_asked e start)) [
        | inl before ↦ asks (rw (is_asked-put_old e eid w.0 start before) refl)
        | inr after ↦ elim (Bool-cases (eid == e)) [
          | inl same ↦
              let key : eid ≡ e = (==_iff eid e).0 same in
              asks (rw (key, is_asked-put_new e w.0 start) refl)
          | inr other ↦
              let later : elem e eids ≡ true = ground (arith, there, after, other) in
              asks (ground (arith, later))
        ]
      ],
    )

erase-absent : (k : String) (d : Awaited) → contains k d ≡ false → erase k d ≡ d
unfolding erase contains lookup
erase-absent k [] h = refl
erase-absent k ((j, ids) ∷ d) h = elim (Bool-cases (j == k)) [
  | inl same ↦ ground (arith, h, same)
  | inr other ↦ rw other (ap (λ r. (j, ids) ∷ r) (erase-absent k d (ground (arith, h, other))))
]

-- What is not asked of a peer that is left out was asked of another one.
pub is_asked-erase :
    (e : ℕ) (k : String) (d : Awaited)
    → HasDistinctKeys d
    → is_asked e d ≡ true
    → (is_asked e (erase k d) || elem e (ids_of k d)) ≡ true
unfolding erase lookup
is_asked-erase e k [] h there = ground (arith, there)
is_asked-erase e k ((j, ids) ∷ d) (fresh, h) there = elim (Bool-cases (j == k)) [
  | inl same ↦
      let key : j ≡ k = (==_iff j k).0 same in
      let fresh' : contains k d ≡ false = rw (← key) fresh in
      rw same (rw (erase-absent k d fresh') (ground (arith, there)))
  | inr other ↦ elim (Bool-cases (elem e ids)) [
    | inl here ↦ rw other (rw here refl)
    | inr past ↦ rw other (rw past (is_asked-erase e k d h (ground (arith, there, past))))
  ]
]

module _ {Out : Type 0} where
  pub contains-update_old :
      (e : ℕ) (new outputs : Dict ℕ Out)
      → contains e outputs ≡ true
      → contains e (update outputs new) ≡ true
  unfolding update
  contains-update_old e [] outputs h = h
  contains-update_old e ((x, out) ∷ new) outputs h =
      contains-update_old e new (insert x out outputs)
        (contains-insert x e out outputs ∙ ground (arith, h))

  pub contains-update_new :
      (e : ℕ) (new outputs : Dict ℕ Out)
      → contains e new ≡ true
      → contains e (update outputs new) ≡ true
  unfolding update contains lookup
  contains-update_new e [] outputs h = cc
  contains-update_new e ((x, out) ∷ new) outputs h = elim (Bool-cases (x == e)) [
    | inl same ↦
        contains-update_old e new (insert x out outputs)
          (contains-insert x e out outputs ∙ rw same refl)
    | inr other ↦ contains-update_new e new (insert x out outputs) (ground (arith, h, other))
  ]

  -- The expert's output is there, or is awaited.
  abbrev pub is_due : ℕ → Awaited → Dict ℕ Out → Bool
  is_due e asked outputs = contains e outputs || is_asked e asked
