-- ===== src/Node/Pipeline.antt =====
-- The pipeline that the nodes form: an activation goes to a node that expects it.
use mathlib.Core.Bool.{false≢true}
use model_shard.Prelude.{
  ℕ, String, ◌≡◌, refl, sym, ◌∙◌, Bool, true, false, some, [], ◌∷◌, ◌==◌, ==_iff, ◌&&◌, not, Dict,
  lookup, string_eq, nat_equals, nat_equals_iff, arith, inl, inr, Bool-cases,
}
use model_shard.Prelude.Maybe.{value-same}
use model_shard.Node.Directory.{
  ShardSpec, ShardMap, target_start, is_next, first_next, resolve_downstream,
}

-- Another shard that takes over where `shard` ends: at layer 0 when `shard` has the last layer, and at the
-- layer after its own when it has not.
pub record IsDownstream (shard : ShardSpec) (total_layers : ℕ) (peer : ShardSpec) : Type 0 where
  pub wraps : shard.end_layer ≡ total_layers → peer.start_layer ≡ 0
  pub follows : ¬ (shard.end_layer ≡ total_layers) → peer.start_layer ≡ shard.end_layer
  pub differs : ¬ (peer.shard_id ≡ shard.shard_id)

both : (x y : Bool) → (x && not y) ≡ true → (x ≡ true) × (y ≡ false)
both x y h = (ground arith, ground arith)

is_next-IsDownstream :
    (shard : ShardSpec) (total_layers : ℕ) (peer : ShardSpec)
    → is_next shard total_layers peer ≡ true
    → IsDownstream shard total_layers peer
is_next-IsDownstream shard total_layers peer h =
    let (same, other) =
      both (nat_equals peer.start_layer (target_start shard total_layers))
        (peer.shard_id == shard.shard_id) h in
    let starts = (nat_equals_iff _ _).0 same in
    record {
      wraps = λ tail. starts ∙ rw ((nat_equals_iff shard.end_layer total_layers).1 tail) refl;
      follows = λ inner. starts ∙ elim (Bool-cases (nat_equals shard.end_layer total_layers)) [
        | inl tail ↦ absurd (inner ((nat_equals_iff _ _).0 tail))
        | inr off ↦ rw off refl
      ];
      differs = λ own. false≢true (sym other ∙ (==_iff peer.shard_id shard.shard_id).1 own);
    }

IsDownstream-is_next :
    (shard : ShardSpec) (total_layers : ℕ) (peer : ShardSpec)
    → IsDownstream shard total_layers peer
    → is_next shard total_layers peer ≡ true
IsDownstream-is_next shard total_layers peer h = rw (starts, other) refl
  where
    starts : nat_equals peer.start_layer (target_start shard total_layers) ≡ true
    starts = elim (Bool-cases (nat_equals shard.end_layer total_layers)) [
      | inl tail ↦ rw tail ((nat_equals_iff _ _).1 (h.wraps ((nat_equals_iff _ _).0 tail)))
      | inr inner ↦ rw inner (
          (nat_equals_iff _ _).1
            (h.follows (λ tail. false≢true (sym inner ∙ (nat_equals_iff _ _).1 tail))))
    ]

    other : (peer.shard_id == shard.shard_id) ≡ false
    other = elim (Bool-cases (peer.shard_id == shard.shard_id)) [
      | inl own ↦ absurd (h.differs ((==_iff peer.shard_id shard.shard_id).0 own))
      | inr off ↦ off
    ]

first_next-finds :
    (shard : ShardSpec) (total_layers : ℕ) (entries : Dict String ShardSpec) (sid : String)
    (peer : ShardSpec)
    → lookup sid entries ≡ some peer
    → IsDownstream shard total_layers peer
    → (next : ShardSpec) × (first_next shard total_layers entries ≡ some next)
      × IsDownstream shard total_layers next
unfolding first_next lookup
first_next-finds shard total_layers [] sid peer found h = cc
first_next-finds shard total_layers ((k, spec) ∷ entries) sid peer found h =
    elim (Bool-cases (is_next shard total_layers spec)) [
      | inl here ↦ (spec, rw here refl, is_next-IsDownstream shard total_layers spec here)
      | inr not_here ↦ elim (Bool-cases (k == sid)) [
        | inl same ↦
            let value : spec ≡ peer = value-same (rw same at found) in
            absurd (
              false≢true (sym not_here ∙ rw value (IsDownstream-is_next shard total_layers peer h)))
        | inr other ↦
            let (next, ran, good) =
              first_next-finds shard total_layers entries sid peer (rw other at found) h in
            (next, rw not_here ran, good)
      ]
    ]

-- When the directory has another shard that starts at the layer where a shard ends, or at layer 0 for the
-- shard that ends at the last layer, resolve_downstream returns a shard, and it is another
-- one that starts there.
pub resolve_downstream-IsDownstream :
    (shard : ShardSpec) (m : ShardMap) (total_layers : ℕ) (sid : String) (peer : ShardSpec)
    → lookup sid m.entries ≡ some peer
    → IsDownstream shard total_layers peer
    → (next : ShardSpec) × (resolve_downstream shard m total_layers ≡ some next)
      × IsDownstream shard total_layers next
unfolding resolve_downstream
resolve_downstream-IsDownstream shard m total_layers sid peer found h =
    first_next-finds shard total_layers m.entries sid peer found h
