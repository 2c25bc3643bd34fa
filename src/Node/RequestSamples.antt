-- ===== src/Node/RequestSamples.antt =====
-- A request for two tokens that gets both, and one whose error comes while a token waits in its queue.
use mathlib.Core.Bool.{false≢true}
use model_shard.Prelude.{
  ==_iff, arith, ℕ, ◌≡◌, refl, true, false, none, some, List, [], ◌∷◌, lookup, insert, nat_eq,
  string_eq,
}
use model_shard.Node.Directory.{ShardSpec, resolve_downstream}
use model_shard.Node.Samples.{spec_a, spec_b, both_shards}
use model_shard.Node.Pipeline.{IsDownstream, resolve_downstream-IsDownstream}
use model_shard.Node.Requests.{
  err_invalid_provenance, err_shard_unavailable, QueueItem, HeadRequestState, Tables, Calls,
  layers_returned, sampled_token, error_to_client, activation, end_request, outbound_closed,
}
use model_shard.Node.Head.{HeadEvent, begins, takes_item, gets_token, gets_error, head_run, idle}
use model_shard.Node.Stream.{IsStream, tokens_to}
use model_shard.Node.Requested.{requested, IsRequested, head_run-IsStream}

abbrev well : Calls
well = record { client_up = true; downstream_up = true; layers_run = layers_returned }

abbrev two_tokens : List (HeadEvent (Unit {0}))
two_tokens =
    begins none well tt "r1" 2
    ∷ gets_token "r1" 71
    ∷ takes_item well 0
    ∷ gets_token "r1" 72
    ∷ takes_item well 0
    ∷ []

unfoldable end_state : HeadRequestState
end_state = record { max_new_tokens = 2; generated = 2; token_queue = [] }

ran_to_end : lookup 0 (head_run two_tokens idle).tables.objects ≡ some end_state
unfolding head_run lookup insert end_state
ran_to_end = refl

head_run-IsStream_example :
    (n : ℕ) × (g : ℕ) × IsRequested (requested two_tokens) 0 n
    × IsStream n (tokens_to 0 (head_run two_tokens idle).tables.sent) g
unfolding end_state
head_run-IsStream_example = head_run-IsStream two_tokens 0 end_state ran_to_end

delivered :
    (head_run two_tokens idle).tables.sent
    ≡ activation "r1"
      ∷ sampled_token 0 "r1" 71 0 false
      ∷ activation "r1"
      ∷ sampled_token 0 "r1" 72 1 true
      ∷ end_request "r1"
      ∷ outbound_closed
      ∷ []
unfolding head_run lookup insert
delivered = refl

-- The tail rejects the chain: the client hears of the invalid provenance, and then of a shard that is not
-- available.
abbrev rejected : List (HeadEvent (Unit {0}))
rejected =
    begins none well tt "r1" 2
    ∷ gets_error true "r1" err_invalid_provenance
    ∷ takes_item well 0
    ∷ []

two_errors :
    (head_run rejected idle).tables.sent
    ≡ activation "r1"
      ∷ error_to_client "r1" err_invalid_provenance
      ∷ error_to_client "r1" err_shard_unavailable
      ∷ outbound_closed
      ∷ end_request "r1"
      ∷ []
unfolding head_run lookup insert
two_errors = refl

b_follows : IsDownstream spec_a 20 spec_b
b_follows = record {
  wraps = λ tail. absurd (omega (arith, tail));
  follows = λ inner. refl;
  differs = λ own. false≢true ((==_iff "b" "a").1 own);
}

resolve_downstream-IsDownstream_example :
    (next : ShardSpec) × (resolve_downstream spec_a both_shards 20 ≡ some next)
    × IsDownstream spec_a 20 next
resolve_downstream-IsDownstream_example =
    resolve_downstream-IsDownstream spec_a both_shards 20 "b" spec_b (unfold lookup in refl)
      b_follows

abbrev before_last : Tables (Unit {0})
before_last = record {
  kv_caches = ("r1", tt) ∷ [];
  head_states = ("r1", 0) ∷ [];
  pending_finalize = [];
  objects =
      (0, record { max_new_tokens = 2; generated = 1; token_queue = QueueItem.token 72 ∷ [] }) ∷ [];
  next_ref = 1;
  sent = [];
}
