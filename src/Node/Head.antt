-- ===== src/Node/Head.antt =====
-- The head as a whole: the handlers and decode loops of `Node`, one step after another.
use model_shard.Prelude.{
  ℕ, String, Bool, true, Option, none, some, List, [], ◌∷◌, Dict, lookup, insert, erase, nat_eq,
}
use model_shard.Node.Requests.{
  ErrorCode, Tables, Calls, Progress, answered, raised, continues, waits, finished, aborted,
  handle_begin, drive_decode_loop, handle_sampled_token, handle_upstream_error, handle_end,
  on_left_alive,
}

-- The head: its tables, and the decode loops that run, each on its request object and for its request.
pub record Head (Cache : Type 0) : Type 0 where
  pub tables : Tables Cache
  pub loops : Dict ℕ String

-- A loop goes on, or its thread is done.
abbrev pub keep : Progress → ℕ → Dict ℕ String → Dict ℕ String
keep continues ref loops = loops
keep waits ref loops = loops
keep answered ref loops = erase ref loops
keep raised ref loops = erase ref loops
keep finished ref loops = erase ref loops
keep aborted ref loops = erase ref loops

-- What can happen to a head.
pub data HeadEvent (Cache : Type 0) : Type 0 where
  begins : Option String → Calls → Cache → String → ℕ → HeadEvent Cache
  takes_item : Calls → ℕ → HeadEvent Cache
  gets_token : String → ℕ → HeadEvent Cache
  gets_error : Bool → String → ErrorCode → HeadEvent Cache
  gets_end : Bool → Bool → String → HeadEvent Cache
  peer_left : HeadEvent Cache

module _ {Cache : Type 0} where
  abbrev pub begun : String → ℕ → Dict ℕ String → Tables Cache × Progress → Head Cache
  begun rid ref loops (t, continues) = record { tables = t; loops = insert ref rid loops }
  begun rid ref loops (t, progress) = record { tables = t; loops = loops }

  abbrev pub went_round : ℕ → Dict ℕ String → Tables Cache × Progress → Head Cache
  went_round ref loops (t, progress) = record { tables = t; loops = keep progress ref loops }

  abbrev pub go_round : Calls → ℕ → Option String → Head Cache → Head Cache
  go_round calls ref none head = head
  go_round calls ref (some rid) head =
      went_round ref head.loops (drive_decode_loop calls rid ref head.tables)

  unfoldable pub head_step : HeadEvent Cache → Head Cache → Head Cache
  unfolding handle_begin drive_decode_loop handle_sampled_token handle_upstream_error handle_end
      on_left_alive
  head_step (begins unavailable calls cache rid max) head =
      begun rid head.tables.next_ref head.loops
        (handle_begin true unavailable calls cache rid max head.tables)
  head_step (takes_item calls ref) head = go_round calls ref (lookup ref head.loops) head
  head_step (gets_token rid n) head = record head {
    tables = handle_sampled_token true rid n head.tables;
  }
  head_step (gets_error client_up rid code) head = record head {
    tables = handle_upstream_error true client_up rid code head.tables;
  }
  head_step (gets_end tail downstream_up rid) head = record head {
    tables = handle_end tail downstream_up rid head.tables;
  }
  head_step peer_left head = record head { tables = on_left_alive head.tables }

  unfoldable pub head_run : List (HeadEvent Cache) → Head Cache → Head Cache
  unfolding head_step
  head_run [] head = head
  head_run (event ∷ events) head = head_run events (head_step event head)

  abbrev pub idle : Head Cache
  idle = record {
    tables = record {
      kv_caches = [];
      head_states = [];
      pending_finalize = [];
      objects = [];
      next_ref = 0;
      sent = [];
    };
    loops = [];
  }
