-- ===== src/Node/Streaming.antt =====
-- Every step of a head keeps the streams to its clients.
use model_shard.Prelude.Maybe.{value-same}
use model_shard.Prelude.{
  ℕ, String, ◌≡◌, refl, Bool, true, false, Option, none, some, [], ◌∷◌, ◌++◌, ◌==◌, Dict, lookup,
  insert, contains-insert, lookup-insert, nat_eq, string_eq, arith, inl, inr, Bool-cases,
  nat_equals_iff,
}
use model_shard.Node.Requests.{
  ErrorCode, err_shard_unavailable, QueueItem, HeadRequestState, error_to_client, end_request,
  outbound_closed, Tables, Calls, emit, put_item, put, register, at_least_one, drop_cache,
  drop_state, drop_finalize, broadcast_end, close_outbound, abort, clean_up, put_known,
}
use model_shard.Node.Stream.{empty, IsStreamed, emit-IsStreamed, update-IsStreamed}

module _ {Cache : Type 0} (loops : Dict ℕ String) where
  put_item-IsStreamed :
      (item : QueueItem) (ref : ℕ) (o : Option HeadRequestState) (t : Tables Cache)
      → lookup ref t.objects ≡ o
      → IsStreamed loops t
      → IsStreamed loops (put_item item ref o t)
  put_item-IsStreamed item ref none t there h = h
  put_item-IsStreamed item ref (some st) t there h =
      update-IsStreamed loops t ref st (record st { token_queue = st.token_queue ++ item ∷ [] })
        t.sent h there (h.served ref st there) (λ r other. refl)

  pub put-IsStreamed :
      (item : QueueItem) (ref : ℕ) (t : Tables Cache)
      → IsStreamed loops t
      → IsStreamed loops (put item ref t)
  put-IsStreamed item ref t h = put_item-IsStreamed item ref (lookup ref t.objects) t refl h

  pub put_known-IsStreamed :
      (item : QueueItem) (o : Option ℕ) (t : Tables Cache)
      → IsStreamed loops t
      → IsStreamed loops (put_known item o t)
  put_known-IsStreamed item none t h = h
  put_known-IsStreamed item (some ref) t h = put-IsStreamed item ref t h

  pub register-IsStreamed :
      (rid : String) (max : ℕ) (cache : Cache) (t : Tables Cache)
      → IsStreamed loops t
      → IsStreamed (insert t.next_ref rid loops) (register rid max cache t)
  register-IsStreamed rid max cache t h =
      let (absent, nothing) = h.fresh t.next_ref (omega arith) in
      let new : HeadRequestState = record {
        max_new_tokens = at_least_one max;
        generated = 0;
        token_queue = [];
      } in
      record {
        served = λ ref st found. elim (Bool-cases (t.next_ref == ref)) [
          | inl same ↦
              let key : t.next_ref ≡ ref = (nat_equals_iff t.next_ref ref).0 same in
              let value : new ≡ st =
                value-same (rw (lookup-insert t.next_ref ref new t.objects, same) at found) in
              rw (← key, ← value, nothing) (0, empty, λ runs. refl)
          | inr other ↦
              let (g, stream, exact) =
                h.served ref st (rw (lookup-insert t.next_ref ref new t.objects, other) at found) in
              (
                g,
                stream,
                λ runs. exact (rw (contains-insert t.next_ref ref rid loops, other) at runs),
              )
        ];
        fresh = λ ref late.
            let (absent', nothing') = h.fresh ref (omega (arith, late)) in
            let other : (t.next_ref == ref) ≡ false = ground (arith, late) in
            (rw (lookup-insert t.next_ref ref new t.objects, other) absent', nothing');
      }

  pub drop_cache-IsStreamed :
      (rid : String) (t : Tables Cache) → IsStreamed loops t → IsStreamed loops (drop_cache rid t)
  drop_cache-IsStreamed rid t h = record { served = h.served; fresh = h.fresh }

  pub drop_state-IsStreamed :
      (rid : String) (t : Tables Cache) → IsStreamed loops t → IsStreamed loops (drop_state rid t)
  drop_state-IsStreamed rid t h = record { served = h.served; fresh = h.fresh }

  pub drop_finalize-IsStreamed :
      (rid : String) (t : Tables Cache)
      → IsStreamed loops t
      → IsStreamed loops (drop_finalize rid t)
  drop_finalize-IsStreamed rid t h = record { served = h.served; fresh = h.fresh }

  pub broadcast_end-IsStreamed :
      (up : Bool) (rid : String) (t : Tables Cache)
      → IsStreamed loops t
      → IsStreamed loops (broadcast_end up rid t)
  broadcast_end-IsStreamed up rid t h =
      drop_cache-IsStreamed rid _ (emit-IsStreamed loops up (end_request rid) t (λ r. refl) h)

  pub close_outbound-IsStreamed :
      (t : Tables Cache) → IsStreamed loops t → IsStreamed loops (close_outbound t)
  close_outbound-IsStreamed t h = emit-IsStreamed loops true outbound_closed t (λ r. refl) h

  pub clean_up-IsStreamed :
      (calls : Calls) (rid : String) (t : Tables Cache)
      → IsStreamed loops t
      → IsStreamed loops (clean_up calls rid t)
  clean_up-IsStreamed calls rid t h =
      close_outbound-IsStreamed _
        (drop_state-IsStreamed rid _ (broadcast_end-IsStreamed calls.downstream_up rid t h))

  -- The error goes to the client, and the entries of the request go.
  pub refuse-IsStreamed :
      (up : Bool) (rid : String) (code : ErrorCode) (t : Tables Cache)
      → IsStreamed loops t
      → IsStreamed loops (drop_state rid (drop_cache rid (emit up (error_to_client rid code) t)))
  refuse-IsStreamed up rid code t h = drop_state-IsStreamed rid _ (
      drop_cache-IsStreamed rid _
        (emit-IsStreamed loops up (error_to_client rid code) t (λ r. refl) h))

  pub abort-IsStreamed :
      (calls : Calls) (rid : String) (t : Tables Cache)
      → IsStreamed loops t
      → IsStreamed loops (abort calls rid t).0
  abort-IsStreamed calls rid t h = broadcast_end-IsStreamed calls.downstream_up rid _ (
      close_outbound-IsStreamed _ (refuse-IsStreamed calls.client_up rid err_shard_unavailable t h))
