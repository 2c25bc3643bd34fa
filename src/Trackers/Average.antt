-- ===== src/Trackers/Average.antt =====
-- The floats that the trackers compute with are a parameter: what `alpha * x + (1.0 - alpha) * average`
-- and `(1.0 - alpha) * average` give for the tracker's alpha, and how an average is reported.
use model_shard.Prelude.{ℕ, Bool}

pub record Average : Type 1 where
  pub Float : Type 0
  pub zero_float : Float
  pub blend : ℕ → Float → Float
  pub decay : Float → Float
  pub is_positive : Float → Bool
  -- round(v * 100.0)
  pub percent : Float → ℕ
