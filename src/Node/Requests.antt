-- ===== src/Node/Requests.antt =====
-- The head's generation requests: `_handle_begin`, `_drive_decode_loop`, `_handle_sampled_token`,
-- `_handle_upstream_error`, `_handle_end` and the poisoning in `_on_membership_change`. The handlers run on
-- threads of their own; each is one step here, and the decode loop one step for each item that it takes
-- from its queue. Whether a write succeeds, and whether the layers run, is given with the step.
use model_shard.Prelude.{
  ℕ, ◌+◌, String, Bool, true, false, Option, none, some, List, [], ◌∷◌, ◌++◌, ltb, leb, nat_equals,
  if◌then◌else◌, Dict, values, lookup, insert, erase, string_eq, nat_eq,
}
use model_shard.Provenance.Request.{ProvenanceEntry}

-- The codes of wire.proto.
pub data ErrorCode : Type 0 where
  err_unspecified err_unknown_request err_wrong_shard err_protocol_version err_internal : ErrorCode
  err_shard_unavailable err_invalid_provenance : ErrorCode

-- What the queue holds: a token, or `_POISON_TOKEN`.
pub data QueueItem : Type 0 where
  token : ℕ → QueueItem
  poison : QueueItem

pub record HeadRequestState : Type 0 where
  pub max_new_tokens : ℕ
  pub generated : ℕ
  pub token_queue : List QueueItem

-- What is written to the streams. A SampledToken goes to the client of the request object of that number,
-- with the token, its position and whether it is the last.
pub data Output : Type 0 where
  sampled_token : ℕ → String → ℕ → ℕ → Bool → Output
  error_to_client : String → ErrorCode → Output
  activation : String → Output
  end_request : String → Output
  outbound_closed : Output

-- `_head_states` holds references, by their numbers, to the objects of the store `objects`: a decode loop
-- keeps its own reference when the entry is removed.
pub record Tables (Cache : Type 0) : Type 0 where
  pub kv_caches : Dict String Cache
  pub head_states : Dict String ℕ
  pub pending_finalize : Dict String ProvenanceEntry
  pub objects : Dict ℕ HeadRequestState
  pub next_ref : ℕ
  pub sent : List Output

-- How `_run_my_layers` ends: it returns, raises the ExpertRpcFailure that the handlers catch, or raises
-- what they do not catch, as the KeyError of the routing or an error of the backend.
pub data LayersRun : Type 0 where
  layers_returned rpc_failed layers_raised : LayersRun

-- How the calls go that a step makes: the writes to the client and to the downstream peer, the layers.
pub record Calls : Type 0 where
  pub client_up : Bool
  pub downstream_up : Bool
  pub layers_run : LayersRun

-- How a step of a request ends.
pub data Progress : Type 0 where
  answered raised continues waits finished aborted : Progress

-- int(req.max_new_tokens) or 1
abbrev pub at_least_one : ℕ → ℕ
at_least_one n = if nat_equals n 0 then 1 else n

abbrev pub ended : Bool → Progress
ended true = answered
ended false = raised

module _ {Cache : Type 0} where
  abbrev pub emit : Bool → Output → Tables Cache → Tables Cache
  emit true o t = record t { sent = t.sent ++ o ∷ [] }
  emit false o t = t

  abbrev pub drop_cache : String → Tables Cache → Tables Cache
  drop_cache rid t = record t { kv_caches = erase rid t.kv_caches }

  abbrev pub drop_state : String → Tables Cache → Tables Cache
  drop_state rid t = record t { head_states = erase rid t.head_states }

  abbrev pub drop_finalize : String → Tables Cache → Tables Cache
  drop_finalize rid t = record t { pending_finalize = erase rid t.pending_finalize }

  -- state.token_queue.put(item)
  abbrev pub put_item : QueueItem → ℕ → Option HeadRequestState → Tables Cache → Tables Cache
  put_item item ref none t = t
  put_item item ref (some st) t = record t {
    objects = insert ref (record st { token_queue = st.token_queue ++ item ∷ [] }) t.objects;
  }

  abbrev pub put : QueueItem → ℕ → Tables Cache → Tables Cache
  put item ref t = put_item item ref (lookup ref t.objects) t

  -- A new cache and a new state for a request.
  abbrev pub register : String → ℕ → Cache → Tables Cache → Tables Cache
  register rid max cache t = record t {
    kv_caches = insert rid cache t.kv_caches;
    head_states = insert rid t.next_ref t.head_states;
    objects =
        insert t.next_ref
          (record { max_new_tokens = at_least_one max; generated = 0; token_queue = [] }) t.objects;
    next_ref = t.next_ref + 1;
  }

  -- A write to the downstream peer that fails in the prefill is not caught.
  abbrev pub prefill_sent : Bool → String → Tables Cache → Tables Cache × Progress
  prefill_sent downstream_up rid t =
      if downstream_up then (emit true (activation rid) t, continues) else (t, raised)

  -- The prefill of a registered request.
  abbrev pub prefill : LayersRun → Calls → String → Tables Cache → Tables Cache × Progress
  prefill rpc_failed calls rid t = (
    drop_state rid
        (drop_cache rid (emit calls.client_up (error_to_client rid err_shard_unavailable) t)),
    answered,
  )
  prefill layers_raised calls rid t = (t, raised)
  prefill layers_returned calls rid t = prefill_sent calls.downstream_up rid t

  -- `_handle_begin` up to its decode loop; `unavailable` is what `_unavailable_peer` gives.
  unfoldable pub handle_begin :
      Bool → Option String → Calls → Cache → String → ℕ → Tables Cache → Tables Cache × Progress
  handle_begin false unavailable calls cache rid max t =
      (emit calls.client_up (error_to_client rid err_wrong_shard) t, ended calls.client_up)
  handle_begin true (some sid) calls cache rid max t =
      (emit calls.client_up (error_to_client rid err_shard_unavailable) t, ended calls.client_up)
  handle_begin true none calls cache rid max t =
      prefill calls.layers_run calls rid (register rid max cache t)

  -- `_broadcast_end`
  abbrev pub broadcast_end : Bool → String → Tables Cache → Tables Cache
  broadcast_end downstream_up rid t = drop_cache rid (emit downstream_up (end_request rid) t)

  abbrev pub close_outbound : Tables Cache → Tables Cache
  close_outbound t = emit true outbound_closed t

  -- What follows the loop.
  abbrev pub clean_up : Calls → String → Tables Cache → Tables Cache
  clean_up calls rid t = close_outbound (drop_state rid (broadcast_end calls.downstream_up rid t))

  -- The three exception handlers of the loop, which do the same.
  abbrev pub abort : Calls → String → Tables Cache → Tables Cache × Progress
  abort calls rid t = (
    broadcast_end calls.downstream_up rid (
        close_outbound (
          drop_state rid
            (drop_cache rid (emit calls.client_up (error_to_client rid err_shard_unavailable) t)))),
    aborted,
  )

  abbrev pub decode_sent : Calls → String → Tables Cache → Tables Cache × Progress
  decode_sent calls rid t =
      if calls.downstream_up then (emit true (activation rid) t, continues) else abort calls rid t

  -- The layers of the next round.
  abbrev pub decode_layers : LayersRun → Calls → String → Tables Cache → Tables Cache × Progress
  decode_layers rpc_failed calls rid t = abort calls rid t
  decode_layers layers_raised calls rid t = (t, raised)
  decode_layers layers_returned calls rid t = decode_sent calls rid t

  -- The next round, once the token is with the client: a cache that is gone is a KeyError, which is not
  -- caught.
  abbrev pub decode_next : Calls → String → Option Cache → Tables Cache → Tables Cache × Progress
  decode_next calls rid none t = (t, raised)
  decode_next calls rid (some cache) t = decode_layers calls.layers_run calls rid t

  abbrev pub after_token : Calls → String → Bool → Tables Cache → Tables Cache × Progress
  after_token calls rid is_final t =
      if is_final
      then (clean_up calls rid t, finished)
      else decode_next calls rid (lookup rid t.kv_caches) t

  abbrev pub counted : ℕ → HeadRequestState → List QueueItem → Tables Cache → Tables Cache
  counted ref st items t = record t {
    objects =
        insert ref (record st { generated = st.generated + 1; token_queue = items }) t.objects;
  }

  abbrev pub take_token :
      Calls
      → String
      → ℕ
      → HeadRequestState
      → ℕ
      → List QueueItem
      → Tables Cache
      → Tables Cache × Progress
  take_token calls rid ref st n items t =
      let is_final = leb st.max_new_tokens (st.generated + 1) in
      if calls.client_up
      then after_token calls rid is_final
          (emit true (sampled_token ref rid n st.generated is_final) (counted ref st items t))
      else abort calls rid (counted ref st items t)

  -- One round of the loop of `_drive_decode_loop`, on what the queue holds.
  abbrev pub take_item :
      Calls
      → String
      → ℕ
      → HeadRequestState
      → List QueueItem
      → Tables Cache
      → Tables Cache × Progress
  take_item calls rid ref st [] t = (t, waits)
  take_item calls rid ref st (poison ∷ items) t =
      abort calls rid
        (record t { objects = insert ref (record st { token_queue = items }) t.objects })
  take_item calls rid ref st (token n ∷ items) t = take_token calls rid ref st n items t

  abbrev pub decode_round :
      Calls → String → ℕ → Option HeadRequestState → Tables Cache → Tables Cache × Progress
  decode_round calls rid ref none t = (t, waits)
  decode_round calls rid ref (some st) t =
      if ltb st.generated st.max_new_tokens
      then take_item calls rid ref st st.token_queue t
      else (clean_up calls rid t, finished)

  unfoldable pub drive_decode_loop : Calls → String → ℕ → Tables Cache → Tables Cache × Progress
  drive_decode_loop calls rid ref t = decode_round calls rid ref (lookup ref t.objects) t

  abbrev pub put_known : QueueItem → Option ℕ → Tables Cache → Tables Cache
  put_known item none t = t
  put_known item (some ref) t = put item ref t

  unfoldable pub handle_sampled_token : Bool → String → ℕ → Tables Cache → Tables Cache
  handle_sampled_token head rid n t =
      if head then put_known (token n) (lookup rid t.head_states) t else t

  abbrev pub surface : Bool → String → ErrorCode → Option ℕ → Tables Cache → Tables Cache
  surface client_up rid code none t = t
  surface client_up rid code (some ref) t =
      drop_state rid (drop_cache rid (put poison ref (emit client_up (error_to_client rid code) t)))

  unfoldable pub handle_upstream_error :
      Bool → Bool → String → ErrorCode → Tables Cache → Tables Cache
  handle_upstream_error head client_up rid code t =
      if head then surface client_up rid code (lookup rid t.head_states) t else t

  unfoldable pub handle_end : Bool → Bool → String → Tables Cache → Tables Cache
  handle_end tail downstream_up rid t =
      let t' = drop_finalize rid (drop_state rid (drop_cache rid t)) in
      close_outbound (if tail then t' else broadcast_end downstream_up rid t')

  -- A peer has left ALIVE: every waiting loop is woken.
  unfoldable pub poison_all : List ℕ → Tables Cache → Tables Cache
  poison_all [] t = t
  poison_all (ref ∷ refs) t = poison_all refs (put poison ref t)

  unfoldable pub on_left_alive : Tables Cache → Tables Cache
  unfolding poison_all
  on_left_alive t = poison_all (values t.head_states) t
