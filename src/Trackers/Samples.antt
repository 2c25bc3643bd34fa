-- ===== src/Trackers/Samples.antt =====
-- Averages in hundredths, blended with alpha 0.3 and rounded down.
use model_shard.Prelude.{
  ℕ, ◌+◌, ◌*◌, ◌/◌, ◌≡◌, refl, [], ◌∷◌, lookup, insert, contains, ltb, nat_eq, pair_eq,
}
use model_shard.Trackers.Average.{Average}
use model_shard.Trackers.Heat.{HeatTracker, observe, report}
use model_shard.Trackers.HeatLaws.{averaged, observe-averages}

abbrev pub hundredths : Average
hundredths = record {
  Float = ℕ;
  zero_float = 0;
  blend = λ n v. (30 * n * 100 + 70 * v) / 100;
  decay = λ v. 70 * v / 100;
  is_positive = λ v. ltb 0 v;
  percent = λ v. v;
}

abbrev pub warm : HeatTracker hundredths
warm = record { top_n = 16; ema = ((15, 3), 200) ∷ ((15, 4), 100) ∷ ((20, 3), 50) ∷ [] }

observe-averages_example :
    lookup (15, 3) (observe hundredths 15 (3 ∷ 5 ∷ 3 ∷ []) warm).ema
    ≡ averaged hundredths 15 15 3 (3 ∷ 5 ∷ 3 ∷ []) (lookup (15, 3) warm.ema)
observe-averages_example = observe-averages hundredths 15 15 3 3 (5 ∷ 3 ∷ []) warm

report_example :
    report hundredths (observe hundredths 15 (3 ∷ 5 ∷ 3 ∷ []) warm)
    ≡ (15, 3, 200) ∷ (15, 4, 70) ∷ (20, 3, 50) ∷ (15, 5, 30) ∷ []
unfolding report observe insert lookup contains
report_example = refl
