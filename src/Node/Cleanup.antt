-- ===== src/Node/Cleanup.antt =====
-- What is left of a request whose decode loop is over.
use model_shard.Prelude.{String, ◌≡◌, Bool, true, false, none, lookup, string_eq, nat_eq}
use model_shard.Node.Requests.{Tables, Progress, finished, aborted}

-- The loop has been left by its end or by one of its exception handlers.
abbrev pub is_over : Progress → Bool
is_over finished = true
is_over aborted = true
is_over progress = false

module _ {Cache : Type 0} (rid : String) where
  -- No entry of the request is left.
  pub record IsForgotten (t : Tables Cache) : Type 0 where
    pub no_cache : lookup rid t.kv_caches ≡ none
    pub no_state : lookup rid t.head_states ≡ none

  Forgets : Tables Cache × Progress → Type 0
  Forgets x = is_over x.1 ≡ true → IsForgotten x.0
