-- ===== src/Trackers/Heat.antt =====
-- `HeatTracker` of src/model_shard/heat.py.
use model_shard.Prelude.{
  ℕ, ◌+◌, Option, none, some, List, [], ◌∷◌, map, filter, take, ◌&&◌, not, ◌==◌, if◌then◌else◌,
  Dict, lookup, insert, erase, contains, nat_eq, pair_eq,
}
use model_shard.Migration.Scanner.{hottest_first}
use model_shard.Trackers.Average.{Average}

-- counts[eid] += 1
abbrev pub count_of : Option ℕ → ℕ
count_of none = 0
count_of (some n) = n

unfoldable pub count_ids : List ℕ → Dict ℕ ℕ → Dict ℕ ℕ
count_ids [] counts = counts
count_ids (e ∷ es) counts = count_ids es (insert e (count_of (lookup e counts) + 1) counts)

module _ (a : Average) where
  pub record HeatTracker : Type 0 where
    pub top_n : ℕ
    pub ema : Dict (ℕ × ℕ) a.Float

  abbrev pub or_zero : Option a.Float → a.Float
  or_zero none = a.zero_float
  or_zero (some v) = v

  -- The first loop: what is tracked for the layer and was not picked decays.
  unfoldable pub decay_others : ℕ → Dict ℕ ℕ → Dict (ℕ × ℕ) a.Float → Dict (ℕ × ℕ) a.Float
  decay_others layer counts [] = []
  decay_others layer counts ((k, v) ∷ ema) =
      (k, if k.0 == layer && not (contains k.1 counts) then a.decay v else v)
      ∷ decay_others layer counts ema

  -- The second loop: what was picked is folded in.
  unfoldable pub fold_counts : ℕ → Dict ℕ ℕ → Dict (ℕ × ℕ) a.Float → Dict (ℕ × ℕ) a.Float
  fold_counts layer [] ema = ema
  fold_counts layer ((e, c) ∷ counts) ema =
      fold_counts layer counts (insert (layer, e) (a.blend c (or_zero (lookup (layer, e) ema))) ema)

  unfoldable pub observe : ℕ → List ℕ → HeatTracker → HeatTracker
  unfolding count_ids decay_others fold_counts
  observe layer [] t = t
  observe layer (e ∷ es) t =
      let counts = count_ids (e ∷ es) [] in
      record t { ema = fold_counts layer counts (decay_others layer counts t.ema) }

  unfoldable pub report : HeatTracker → List (ℕ × ℕ × ℕ)
  report t = take t.top_n (
      hottest_first
        (map (λ x. (x.0.0, x.0.1, a.percent x.1)) (filter (λ x. a.is_positive x.1) t.ema)))

  unfoldable pub local_heat : ℕ → ℕ → HeatTracker → ℕ
  local_heat layer expert t = a.percent (or_zero (lookup (layer, expert) t.ema))

  unfoldable pub reset : ℕ → ℕ → HeatTracker → HeatTracker
  reset layer expert t = record t { ema = erase (layer, expert) t.ema }
