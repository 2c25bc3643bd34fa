-- ===== src/Node/Requested.antt =====
-- The request objects hold the numbers that the requests asked for, and so bound the streams.
use native.Mathlib.Numerals.{unary_clauses}
use model_shard.Prelude.{
  get_elem?, suc, ℕ, ◌+◌, ◌<◌, String, ◌≡◌, refl, Bool, true, false, Option, none, some, List, [],
  ◌∷◌, ltb, leb, All, All-insert, All-lookup, if◌then◌else◌, Dict, lookup, insert, values,
  nat_equals_iff, nat_eq, string_eq, arith,
}
use model_shard.Node.Requests.{
  ErrorCode, err_shard_unavailable, QueueItem, token, poison, HeadRequestState, Output,
  sampled_token, error_to_client, end_request, Tables, Calls, LayersRun, layers_returned,
  rpc_failed, layers_raised, Progress, answered, raised, continues, waits, finished, aborted,
  at_least_one, emit, put_item, put, register, handle_begin, prefill, abort, clean_up,
  decode_layers, decode_next, counted, take_item, decode_round, drive_decode_loop, put_known,
  handle_sampled_token, surface, handle_upstream_error, handle_end, poison_all, on_left_alive,
}
use model_shard.Node.Head.{
  Head, HeadEvent, begins, takes_item, gets_token, gets_error, gets_end, peer_left, begun, go_round,
  head_step, head_run, idle,
}
use model_shard.Node.Stream.{tokens_to, IsStream}
use model_shard.Node.Rounds.{head_run_streams}

-- The numbers of tokens that the requests ask for, in their order; a request that finds a peer unavailable
-- is not taken.
abbrev pub requested : {Cache : Type 0} → List (HeadEvent Cache) → List ℕ
requested [] = []
requested (begins none calls cache rid max ∷ events) = max ∷ requested events
requested (begins (some sid) calls cache rid max ∷ events) = requested events
requested (takes_item calls ref ∷ events) = requested events
requested (gets_token rid n ∷ events) = requested events
requested (gets_error up rid code ∷ events) = requested events
requested (gets_end tail up rid ∷ events) = requested events
requested (peer_left ∷ events) = requested events

module _ {Cache : Type 0} (Asked : ℕ → ℕ → Type 0) (next : ℕ) where
  -- Every request object has the number that was asked for, and `next` objects were made.
  abbrev Objects : Tables Cache → Type 0
  Objects t =
      (t.next_ref ≡ next)
      × All (λ (x : ℕ × HeadRequestState). Asked x.0 x.1.max_new_tokens) t.objects

  abbrev Keeps : Tables Cache × Progress → Type 0
  Keeps x = Objects x.0

  if_Keeps :
      (test : Bool) (x y : Tables Cache × Progress)
      → Keeps x
      → Keeps y
      → Keeps (if test then x else y)
  if_Keeps true x y h k = h
  if_Keeps false x y h k = k

  emit-Objects : (up : Bool) (o : Output) (t : Tables Cache) → Objects t → Objects (emit up o t)
  emit-Objects true o t h = h
  emit-Objects false o t h = h

  -- An object that is replaced keeps its number.
  insert-Objects :
      (ref : ℕ) (st st' : HeadRequestState) (t : Tables Cache)
      → lookup ref t.objects ≡ some st
      → st'.max_new_tokens ≡ st.max_new_tokens
      → Objects t
      → Objects (record t { objects = insert ref st' t.objects })
  insert-Objects ref st st' t there same (made, h) = (
    made,
    All-insert (λ (x : ℕ × HeadRequestState). Asked x.0 x.1.max_new_tokens) ref st' t.objects
        (rw same (
          All-lookup (λ (x : ℕ × HeadRequestState). Asked x.0 x.1.max_new_tokens) ref st t.objects h
            there))
        h,
  )

  put_item-Objects :
      (item : QueueItem) (ref : ℕ) (o : Option HeadRequestState) (t : Tables Cache)
      → lookup ref t.objects ≡ o
      → Objects t
      → Objects (put_item item ref o t)
  put_item-Objects item ref none t there h = h
  put_item-Objects item ref (some st) t there h = insert-Objects ref st _ t there refl h

  put-Objects :
      (item : QueueItem) (ref : ℕ) (t : Tables Cache) → Objects t → Objects (put item ref t)
  put-Objects item ref t h = put_item-Objects item ref (lookup ref t.objects) t refl h

  put_known-Objects :
      (item : QueueItem) (o : Option ℕ) (t : Tables Cache)
      → Objects t
      → Objects (put_known item o t)
  put_known-Objects item none t h = h
  put_known-Objects item (some ref) t h = put-Objects item ref t h

  abort-Keeps :
      (calls : Calls) (rid : String) (t : Tables Cache) → Objects t → Keeps (abort calls rid t)
  abort-Keeps calls rid t h =
      emit-Objects calls.downstream_up (end_request rid) _
        (emit-Objects calls.client_up (error_to_client rid err_shard_unavailable) t h)

  clean_up-Objects :
      (calls : Calls) (rid : String) (t : Tables Cache) → Objects t → Objects (clean_up calls rid t)
  clean_up-Objects calls rid t h = emit-Objects calls.downstream_up (end_request rid) t h

  decode_layers-Keeps :
      (layers : LayersRun) (calls : Calls) (rid : String) (t : Tables Cache)
      → Objects t
      → Keeps (decode_layers layers calls rid t)
  decode_layers-Keeps rpc_failed calls rid t h = abort-Keeps calls rid t h
  decode_layers-Keeps layers_raised calls rid t h = h
  decode_layers-Keeps layers_returned calls rid t h =
      if_Keeps calls.downstream_up _ _ h (abort-Keeps calls rid t h)

  decode_next-Keeps :
      (calls : Calls) (rid : String) (cache : Option Cache) (t : Tables Cache)
      → Objects t
      → Keeps (decode_next calls rid cache t)
  decode_next-Keeps calls rid none t h = h
  decode_next-Keeps calls rid (some cache) t h = decode_layers-Keeps calls.layers_run calls rid t h

  take_item-Keeps :
      (calls : Calls) (rid : String) (ref : ℕ) (st : HeadRequestState) (items : List QueueItem)
      (t : Tables Cache)
      → lookup ref t.objects ≡ some st
      → Objects t
      → Keeps (take_item calls rid ref st items t)
  take_item-Keeps calls rid ref st [] t there h = h
  take_item-Keeps calls rid ref st (poison ∷ items) t there h =
      abort-Keeps calls rid _ (insert-Objects ref st _ t there refl h)
  take_item-Keeps calls rid ref st (token n ∷ items) t there h =
      let final = leb st.max_new_tokens (st.generated + 1) in
      let next =
        insert-Objects ref st (record st { generated = st.generated + 1; token_queue = items }) t
          there refl h in
      let t' = emit true (sampled_token ref rid n st.generated final) (counted ref st items t) in
      if_Keeps calls.client_up _ _
        (if_Keeps final _ _ (clean_up-Objects calls rid t' next)
          (decode_next-Keeps calls rid (lookup rid t'.kv_caches) t' next))
        (abort-Keeps calls rid (counted ref st items t) next)

  decode_round-Keeps :
      (calls : Calls) (rid : String) (ref : ℕ) (o : Option HeadRequestState) (t : Tables Cache)
      → lookup ref t.objects ≡ o
      → Objects t
      → Keeps (decode_round calls rid ref o t)
  decode_round-Keeps calls rid ref none t there h = h
  decode_round-Keeps calls rid ref (some st) t there h =
      if_Keeps (ltb st.generated st.max_new_tokens) _ _
        (take_item-Keeps calls rid ref st st.token_queue t there h) (clean_up-Objects calls rid t h)

  prefill-Keeps :
      (layers : LayersRun) (calls : Calls) (rid : String) (t : Tables Cache)
      → Objects t
      → Keeps (prefill layers calls rid t)
  prefill-Keeps rpc_failed calls rid t h =
      emit-Objects calls.client_up (error_to_client rid err_shard_unavailable) t h
  prefill-Keeps layers_raised calls rid t h = h
  prefill-Keeps layers_returned calls rid t h = if_Keeps calls.downstream_up _ _ h h

  abbrev Holds : Head Cache → Type 0
  Holds head = Objects head.tables

  begun-Holds :
      (rid : String) (ref : ℕ) (loops : Dict ℕ String) (x : Tables Cache × Progress)
      → Keeps x
      → Holds (begun rid ref loops x)
  begun-Holds rid ref loops (t, continues) h = h
  begun-Holds rid ref loops (t, answered) h = h
  begun-Holds rid ref loops (t, raised) h = h
  begun-Holds rid ref loops (t, waits) h = h
  begun-Holds rid ref loops (t, finished) h = h
  begun-Holds rid ref loops (t, aborted) h = h

  go_round-Holds :
      (calls : Calls) (ref : ℕ) (o : Option String) (head : Head Cache)
      → Holds head
      → Holds (go_round calls ref o head)
  unfolding drive_decode_loop
  go_round-Holds calls ref none head h = h
  go_round-Holds calls ref (some rid) head h =
      decode_round-Keeps calls rid ref (lookup ref head.tables.objects) head.tables refl h

  surface-Objects :
      (up : Bool) (rid : String) (code : ErrorCode) (o : Option ℕ) (t : Tables Cache)
      → Objects t
      → Objects (surface up rid code o t)
  surface-Objects up rid code none t h = h
  surface-Objects up rid code (some ref) t h =
      put-Objects poison ref _ (emit-Objects up (error_to_client rid code) t h)

  handle_end-Objects :
      (tail up : Bool) (rid : String) (t : Tables Cache)
      → Objects t
      → Objects (handle_end tail up rid t)
  unfolding handle_end
  handle_end-Objects true up rid t h = h
  handle_end-Objects false up rid t h = emit-Objects up (end_request rid) _ h

  poison_all-Objects : (refs : List ℕ) (t : Tables Cache) → Objects t → Objects (poison_all refs t)
  unfolding poison_all
  poison_all-Objects [] t h = h
  poison_all-Objects (ref ∷ refs) t h = poison_all-Objects refs _ (put-Objects poison ref t h)

module _ {Cache : Type 0} (Asked : ℕ → ℕ → Type 0) where
  register-Objects :
      (next : ℕ) (rid : String) (max : ℕ) (cache : Cache) (t : Tables Cache)
      → Asked next (at_least_one max)
      → Objects Asked next t
      → Objects Asked (next + 1) (register rid max cache t)
  register-Objects next rid max cache t asked (made, h) = (
    rw made refl,
    All-insert (λ (x : ℕ × HeadRequestState). Asked x.0 x.1.max_new_tokens) t.next_ref _ t.objects
        (rw made asked) h,
  )

  -- `next` requests were taken before these events.
  abbrev AskedFrom : ℕ → List (HeadEvent Cache) → Type 0
  AskedFrom next events =
      (i m : ℕ) → get_elem? (requested events) i ≡ some m → Asked (next + i) (at_least_one m)

  head_run-Holds :
      (events : List (HeadEvent Cache)) (next : ℕ) (head : Head Cache)
      → AskedFrom next events
      → Holds Asked next head
      → (later : ℕ) × Holds Asked later (head_run events head)
  unfolding head_run head_step handle_sampled_token handle_upstream_error on_left_alive handle_begin
  head_run-Holds [] next head asked h = (next, h)
  head_run-Holds (begins (some sid) calls cache rid max ∷ events) next head asked h =
      head_run-Holds events next _ asked (
        begun-Holds Asked next rid head.tables.next_ref head.loops _ (
          emit-Objects Asked next calls.client_up (error_to_client rid err_shard_unavailable)
            head.tables h))
  head_run-Holds (begins none calls cache rid max ∷ events) next head asked h =
      let first : Asked next (at_least_one max) = simp unary_clauses at (asked 0 max refl) in
      head_run-Holds events (next + 1) _
        (λ i m there.
          let e : next + 1 + i ≡ next + suc i = omega arith in rw e (asked (suc i) m there))
        (begun-Holds Asked (next + 1) rid head.tables.next_ref head.loops _ (
          prefill-Keeps Asked (next + 1) calls.layers_run calls rid
            (register rid max cache head.tables)
            (register-Objects next rid max cache head.tables first h)))
  head_run-Holds (takes_item calls ref ∷ events) next head asked h =
      head_run-Holds events next _ asked
        (go_round-Holds Asked next calls ref (lookup ref head.loops) head h)
  head_run-Holds (gets_token rid n ∷ events) next head asked h =
      head_run-Holds events next _ asked
        (put_known-Objects Asked next (token n) (lookup rid head.tables.head_states) head.tables h)
  head_run-Holds (gets_error up rid code ∷ events) next head asked h =
      head_run-Holds events next _ asked
        (surface-Objects Asked next up rid code (lookup rid head.tables.head_states) head.tables h)
  head_run-Holds (gets_end tail up rid ∷ events) next head asked h =
      head_run-Holds events next _ asked (handle_end-Objects Asked next tail up rid head.tables h)
  head_run-Holds (peer_left ∷ events) next head asked h =
      head_run-Holds events next _ asked
        (poison_all-Objects Asked next (values head.tables.head_states) head.tables h)

-- `n` is what the request of that number asked for, or 1 where it asked for 0.
pub record IsRequested (ms : List ℕ) (ref n : ℕ) : Type 0 where
  pub asked : ℕ
  pub of_request : get_elem? ms ref ≡ some asked
  pub positive : 0 < asked → n ≡ asked
  pub or_one : asked ≡ 0 → n ≡ 1

at_least_one-IsRequested :
    (ms : List ℕ) (ref m : ℕ) → get_elem? ms ref ≡ some m → IsRequested ms ref (at_least_one m)
at_least_one-IsRequested ms ref m h = record {
  asked = m;
  of_request = h;
  positive = λ some_asked. ground (arith, some_asked, nat_equals_iff m 0);
  or_one = λ none_asked. ground (arith, none_asked, nat_equals_iff m 0);
}

-- Whatever requests begin and are poisoned, whatever tokens and errors come and whichever writes fail,
-- the tokens that a client was sent have the positions 0, 1, 2, … without a gap, they are no more than its
-- request asked for, or than 1 where it asked for 0, and exactly the one that reaches that number is
-- marked final.
pub head_run-IsStream :
    {Cache : Type 0} (events : List (HeadEvent Cache)) (ref : ℕ) (st : HeadRequestState)
    → lookup ref (head_run events idle).tables.objects ≡ some st
    → (n : ℕ) × (g : ℕ) × IsRequested (requested events) ref n
      × IsStream n (tokens_to ref (head_run events idle).tables.sent) g
head_run-IsStream events ref st found =
    let (g, stream) = head_run_streams events ref st found in
    let (later, (made, objects)) =
      head_run-Holds (IsRequested (requested events)) events 0 idle
        (λ i m there.
          let e : 0 + i ≡ i = omega arith in
          rw e (at_least_one-IsRequested (requested events) i m there))
        (refl, tt) in
    let asked =
      All-lookup
        (λ (x : ℕ × HeadRequestState). IsRequested (requested events) x.0 x.1.max_new_tokens) ref st
        (head_run events idle).tables.objects objects found in
    (st.max_new_tokens, g, asked, stream)
