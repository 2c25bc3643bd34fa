-- ===== src/Node/Rounds.antt =====
-- Whatever happens to a head, its clients are sent streams.
use mathlib.Core.Bool.{false≢true}
use model_shard.Prelude.{
  ℕ, ◌+◌, ◌<◌, String, ◌≡◌, refl, sym, ◌∙◌, Bool, true, false, Option, none, some, List, [], ◌∷◌,
  ◌++◌, ltb, ltb→lt, leb, if◌then◌else◌, Dict, lookup, insert, erase, contains, contains-insert,
  values, nat_eq, string_eq, arith, inl, inr, Bool-cases,
}
use model_shard.Node.Requests.{
  ErrorCode, err_shard_unavailable, QueueItem, token, poison, HeadRequestState, sampled_token,
  error_to_client, activation, Tables, Calls, LayersRun, layers_returned, rpc_failed, layers_raised,
  decode_layers, Progress, answered, raised, continues, waits, finished, aborted, emit, ended,
  handle_begin, prefill, decode_next, after_token, take_token, take_item, decode_round,
  drive_decode_loop, handle_sampled_token, surface, handle_upstream_error, handle_end, poison_all,
  on_left_alive, counted,
}
use model_shard.Node.Head.{
  Head, HeadEvent, begins, takes_item, gets_token, gets_error, gets_end, peer_left, keep, begun,
  went_round, go_round, head_step, head_run, idle,
}
use model_shard.Node.Stream.{
  tokens_to, IsStream, more, tokens_to-own, tokens_to-other, IsStreamed, contains-erase_self,
  weaken-IsStreamed, erase-IsStreamed, emit-IsStreamed, update-IsStreamed,
}
use model_shard.Node.Streaming.{
  put-IsStreamed, put_known-IsStreamed, register-IsStreamed, drop_cache-IsStreamed,
  drop_state-IsStreamed, drop_finalize-IsStreamed, close_outbound-IsStreamed,
  broadcast_end-IsStreamed, clean_up-IsStreamed, refuse-IsStreamed, abort-IsStreamed,
}

contains-insert_other :
    (ref r : ℕ) (rid : String) (loops : Dict ℕ String)
    → contains r loops ≡ true
    → contains r (insert ref rid loops) ≡ true
contains-insert_other ref r rid loops h = ground (arith, h, contains-insert ref r rid loops)

if_keeps :
    {A : Type 0} (P : A → Type 0) (test : Bool) (x y : A) → P x → P y → P (if test then x else y)
if_keeps P true x y h k = h
if_keeps P false x y h k = k

module _ {Cache : Type 0} where
  prefill-IsStreamed :
      (layers : LayersRun) (loops : Dict ℕ String) (calls : Calls) (rid : String) (t : Tables Cache)
      → IsStreamed loops t
      → IsStreamed loops (prefill layers calls rid t).0
  prefill-IsStreamed rpc_failed loops calls rid t h =
      refuse-IsStreamed loops calls.client_up rid err_shard_unavailable t h
  prefill-IsStreamed layers_raised loops calls rid t h = h
  prefill-IsStreamed layers_returned loops calls rid t h =
      if_keeps (λ (x : Tables Cache × Progress). IsStreamed loops x.0) calls.downstream_up _ _
        (emit-IsStreamed loops true (activation rid) t (λ r. refl) h) h

  -- The streams of a head.
  abbrev pub Serves : Head Cache → Type 0
  Serves head = IsStreamed head.loops head.tables

  begun-Serves :
      (rid : String) (ref : ℕ) (loops : Dict ℕ String) (x : Tables Cache × Progress)
      → IsStreamed (insert ref rid loops) x.0
      → Serves (begun rid ref loops x)
  begun-Serves rid ref loops (t, continues) h = h
  begun-Serves rid ref loops (t, answered) h =
      weaken-IsStreamed _ loops t (λ r. contains-insert_other ref r rid loops) h
  begun-Serves rid ref loops (t, raised) h =
      weaken-IsStreamed _ loops t (λ r. contains-insert_other ref r rid loops) h
  begun-Serves rid ref loops (t, waits) h =
      weaken-IsStreamed _ loops t (λ r. contains-insert_other ref r rid loops) h
  begun-Serves rid ref loops (t, finished) h =
      weaken-IsStreamed _ loops t (λ r. contains-insert_other ref r rid loops) h
  begun-Serves rid ref loops (t, aborted) h =
      weaken-IsStreamed _ loops t (λ r. contains-insert_other ref r rid loops) h

  ended-Serves :
      (rid : String) (ref : ℕ) (loops : Dict ℕ String) (up : Bool) (t : Tables Cache)
      → IsStreamed loops t
      → Serves (begun rid ref loops (t, ended up))
  ended-Serves rid ref loops true t h = h
  ended-Serves rid ref loops false t h = h

  begins-Serves :
      (unavailable : Option String) (calls : Calls) (cache : Cache) (rid : String) (max : ℕ)
      (head : Head Cache)
      → Serves head
      → Serves (
          begun rid head.tables.next_ref head.loops
            (handle_begin true unavailable calls cache rid max head.tables))
  unfolding handle_begin
  begins-Serves (some sid) calls cache rid max head h =
      ended-Serves rid head.tables.next_ref head.loops calls.client_up _ (
        emit-IsStreamed head.loops calls.client_up (error_to_client rid err_shard_unavailable)
          head.tables (λ r. refl) h)
  begins-Serves none calls cache rid max head h =
      begun-Serves rid head.tables.next_ref head.loops _ (
        prefill-IsStreamed calls.layers_run _ calls rid _
          (register-IsStreamed head.loops rid max cache head.tables h))

  -- After a round, with the loop of `ref` kept or done.
  Goes : ℕ → Dict ℕ String → Tables Cache × Progress → Type 0
  Goes ref loops x = IsStreamed (keep x.1 ref loops) x.0

module _ {Cache : Type 0} (ref : ℕ) (loops : Dict ℕ String) where
  decode_layers-Goes :
      (layers : LayersRun) (calls : Calls) (rid : String) (t : Tables Cache)
      → IsStreamed loops t
      → Goes ref loops (decode_layers layers calls rid t)
  unfolding Goes
  decode_layers-Goes rpc_failed calls rid t h =
      abort-IsStreamed (erase ref loops) calls rid t (erase-IsStreamed loops ref t h)
  decode_layers-Goes layers_raised calls rid t h = erase-IsStreamed loops ref t h
  decode_layers-Goes layers_returned calls rid t h =
      if_keeps (Goes ref loops) calls.downstream_up _ _
        (emit-IsStreamed loops true (activation rid) t (λ r. refl) h)
        (abort-IsStreamed (erase ref loops) calls rid t (erase-IsStreamed loops ref t h))

  decode_next-Goes :
      (calls : Calls) (rid : String) (cache : Option Cache) (t : Tables Cache)
      → IsStreamed loops t
      → Goes ref loops (decode_next calls rid cache t)
  unfolding Goes
  decode_next-Goes calls rid none t h = erase-IsStreamed loops ref t h
  decode_next-Goes calls rid (some cache) t h = decode_layers-Goes calls.layers_run calls rid t h

  after_token-Goes :
      (calls : Calls) (rid : String) (final : Bool) (t : Tables Cache)
      → IsStreamed loops t
      → Goes ref loops (after_token calls rid final t)
  unfolding Goes
  after_token-Goes calls rid final t h =
      if_keeps (Goes ref loops) final _ _
        (clean_up-IsStreamed (erase ref loops) calls rid t (erase-IsStreamed loops ref t h))
        (decode_next-Goes calls rid (lookup rid t.kv_caches) t h)

  -- The token that is sent is the next of the stream, since the loop runs.
  sent-IsStreamed :
      (rid : String) (n : ℕ) (st : HeadRequestState) (items : List QueueItem) (t : Tables Cache)
      → contains ref loops ≡ true
      → lookup ref t.objects ≡ some st
      → st.generated < st.max_new_tokens
      → IsStreamed loops t
      → IsStreamed loops (
          emit true
            (sampled_token ref rid n st.generated (leb st.max_new_tokens (st.generated + 1)))
            (counted ref st items t))
  sent-IsStreamed rid n st items t runs there room h =
      let final = leb st.max_new_tokens (st.generated + 1) in
      let (g, stream, exact) = h.served ref st there in
      let next = record st { generated = st.generated + 1; token_queue = items } in
      update-IsStreamed loops t ref st next
        (t.sent ++ sampled_token ref rid n st.generated final ∷ []) h there
        (
          st.generated + 1,
          rw (tokens_to-own ref t.sent rid n st.generated final)
              (more (rw (exact runs) at stream) n room),
          λ _. refl,
        )
        (λ r other. tokens_to-other r ref t.sent rid n st.generated final other)

  -- An object whose loop is done may have counted a token that its client did not get.
  changed-IsStreamed :
      (st st' : HeadRequestState) (t : Tables Cache)
      → lookup ref t.objects ≡ some st
      → st'.max_new_tokens ≡ st.max_new_tokens
      → IsStreamed loops t
      → IsStreamed (erase ref loops) (record t { objects = insert ref st' t.objects })
  changed-IsStreamed st st' t there same h =
      let (g, stream, exact) = h.served ref st there in
      update-IsStreamed (erase ref loops) t ref st st' t.sent (erase-IsStreamed loops ref t h) there
        (
          g,
          rw same stream,
          λ runs. absurd (false≢true (sym (contains-erase_self ref loops) ∙ runs)),
        )
        (λ r other. refl)

  take_token-Goes :
      (calls : Calls) (rid : String) (st : HeadRequestState) (n : ℕ) (items : List QueueItem)
      (t : Tables Cache)
      → contains ref loops ≡ true
      → lookup ref t.objects ≡ some st
      → st.generated < st.max_new_tokens
      → IsStreamed loops t
      → Goes ref loops (take_token calls rid ref st n items t)
  unfolding Goes
  take_token-Goes calls rid st n items t runs there room h =
      if_keeps (Goes ref loops) calls.client_up _ _
        (after_token-Goes calls rid (leb st.max_new_tokens (st.generated + 1)) _
          (sent-IsStreamed rid n st items t runs there room h))
        (abort-IsStreamed (erase ref loops) calls rid _ (
          changed-IsStreamed st (record st { generated = st.generated + 1; token_queue = items }) t
            there refl h))

  take_item-Goes :
      (calls : Calls) (rid : String) (st : HeadRequestState) (items : List QueueItem)
      (t : Tables Cache)
      → contains ref loops ≡ true
      → lookup ref t.objects ≡ some st
      → st.generated < st.max_new_tokens
      → IsStreamed loops t
      → Goes ref loops (take_item calls rid ref st items t)
  unfolding Goes
  take_item-Goes calls rid st [] t runs there room h = h
  take_item-Goes calls rid st (poison ∷ items) t runs there room h =
      abort-IsStreamed (erase ref loops) calls rid _
        (changed-IsStreamed st (record st { token_queue = items }) t there refl h)
  take_item-Goes calls rid st (token n ∷ items) t runs there room h =
      take_token-Goes calls rid st n items t runs there room h

  decode_round-Goes :
      (calls : Calls) (rid : String) (o : Option HeadRequestState) (t : Tables Cache)
      → contains ref loops ≡ true
      → lookup ref t.objects ≡ o
      → IsStreamed loops t
      → Goes ref loops (decode_round calls rid ref o t)
  unfolding Goes
  decode_round-Goes calls rid none t runs there h = h
  decode_round-Goes calls rid (some st) t runs there h =
      elim (Bool-cases (ltb st.generated st.max_new_tokens)) [
        | inl room ↦
            rw room (take_item-Goes calls rid st st.token_queue t runs there (ltb→lt _ _ room) h)
        | inr done ↦
            rw done
              (clean_up-IsStreamed (erase ref loops) calls rid t (erase-IsStreamed loops ref t h))
      ]

module _ {Cache : Type 0} where
  went_round-Serves :
      (ref : ℕ) (loops : Dict ℕ String) (x : Tables Cache × Progress)
      → Goes ref loops x
      → Serves (went_round ref loops x)
  unfolding Goes
  went_round-Serves ref loops (t, progress) h = h

  go_round-Serves :
      (calls : Calls) (ref : ℕ) (o : Option String) (head : Head Cache)
      → lookup ref head.loops ≡ o
      → Serves head
      → Serves (go_round calls ref o head)
  unfolding drive_decode_loop contains
  go_round-Serves calls ref none head there h = h
  go_round-Serves calls ref (some rid) head there h = went_round-Serves ref head.loops _ (
      decode_round-Goes ref head.loops calls rid (lookup ref head.tables.objects) head.tables
        (rw there refl) refl h)

  surface-IsStreamed :
      (loops : Dict ℕ String) (up : Bool) (rid : String) (code : ErrorCode) (o : Option ℕ)
      (t : Tables Cache)
      → IsStreamed loops t
      → IsStreamed loops (surface up rid code o t)
  surface-IsStreamed loops up rid code none t h = h
  surface-IsStreamed loops up rid code (some ref) t h = drop_state-IsStreamed loops rid _ (
      drop_cache-IsStreamed loops rid _ (
        put-IsStreamed loops poison ref _
          (emit-IsStreamed loops up (error_to_client rid code) t (λ r. refl) h)))

  handle_end-IsStreamed :
      (loops : Dict ℕ String) (tail up : Bool) (rid : String) (t : Tables Cache)
      → IsStreamed loops t
      → IsStreamed loops (handle_end tail up rid t)
  unfolding handle_end
  handle_end-IsStreamed loops tail up rid t h =
      let dropped =
        drop_finalize-IsStreamed loops rid _
          (drop_state-IsStreamed loops rid _ (drop_cache-IsStreamed loops rid t h)) in
      close_outbound-IsStreamed loops _ (
        if_keeps (IsStreamed loops) tail _ _ dropped
          (broadcast_end-IsStreamed loops up rid _ dropped))

  poison_all-IsStreamed :
      (loops : Dict ℕ String) (refs : List ℕ) (t : Tables Cache)
      → IsStreamed loops t
      → IsStreamed loops (poison_all refs t)
  unfolding poison_all
  poison_all-IsStreamed loops [] t h = h
  poison_all-IsStreamed loops (ref ∷ refs) t h =
      poison_all-IsStreamed loops refs _ (put-IsStreamed loops poison ref t h)

  head_step-Serves :
      (event : HeadEvent Cache) (head : Head Cache) → Serves head → Serves (head_step event head)
  unfolding head_step handle_sampled_token handle_upstream_error on_left_alive
  head_step-Serves (begins unavailable calls cache rid max) head h =
      begins-Serves unavailable calls cache rid max head h
  head_step-Serves (takes_item calls ref) head h =
      go_round-Serves calls ref (lookup ref head.loops) head refl h
  head_step-Serves (gets_token rid n) head h =
      put_known-IsStreamed head.loops (token n) (lookup rid head.tables.head_states) head.tables h
  head_step-Serves (gets_error up rid code) head h =
      surface-IsStreamed head.loops up rid code (lookup rid head.tables.head_states) head.tables h
  head_step-Serves (gets_end tail up rid) head h =
      handle_end-IsStreamed head.loops tail up rid head.tables h
  head_step-Serves peer_left head h =
      poison_all-IsStreamed head.loops (values head.tables.head_states) head.tables h

  head_run-Serves :
      (events : List (HeadEvent Cache)) (head : Head Cache)
      → Serves head
      → Serves (head_run events head)
  unfolding head_run
  head_run-Serves [] head h = h
  head_run-Serves (event ∷ events) head h =
      head_run-Serves events (head_step event head) (head_step-Serves event head h)

  idle-Serves : Serves {Cache = Cache} idle
  unfolding lookup
  idle-Serves = record { served = λ ref st found. cc; fresh = λ ref late. (refl, refl) }

  -- A client is sent a stream of at most as many tokens as its request object says.
  pub head_run_streams :
      (events : List (HeadEvent Cache)) (ref : ℕ) (st : HeadRequestState)
      → lookup ref (head_run events idle).tables.objects ≡ some st
      → (g : ℕ) × IsStream st.max_new_tokens (tokens_to ref (head_run events idle).tables.sent) g
  head_run_streams events ref st found =
      let (g, stream, exact) = (head_run-Serves events idle idle-Serves).served ref st found in
      (g, stream)
