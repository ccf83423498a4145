-- ===== src/Rpc/Tests.antt =====
-- Requests over a link that answers the items with even numbers at once and the others after a while.
use async_substrate_interfac.Prelude.{
  ℕ, ◌+◌, ◌-◌, ◌%◌, ◌≡◌, refl, inr, true, none, some, List, [], ◌∷◌, String, ltb, ◌==◌,
  if◌then◌else◌, map, ℕ_discrete, All, arith,
}
use async_substrate_interfac.Prelude.Dict.{lookup, put, keys}
use async_substrate_interfac.Prelude.Distinct.{has, Distinct}
use async_substrate_interfac.Json.{num, Fields, end, field, field_of}
use async_substrate_interfac.Requests.{
  init, append_bounded, add_request, add_response, info_of, is_open, all_complete, is_complete,
  get_results,
}
use async_substrate_interfac.Websocket.State.{nothing, got}
use async_substrate_interfac.Link.{
  bytes, json, Decoded, value, StorageItem, Link, Payload, Options, missing_type, value_type,
  query_value, raw_value, as_value, decode_with, decoded, handle, process_response,
}
use async_substrate_interfac.Rpc.{
  overwrite, subscribe, add_answer, respond, receive, visit, pass, returned, poll, add_sent,
  send_all, unique, started, request_all, make_rpc_request,
}
use async_substrate_interfac.Rpc.Origins.{Answers}
use async_substrate_interfac.Rpc.Answers.{make_rpc_request-Answers, make_rpc_request_complete}
use async_substrate_interfac.Rpc.Waiting.{Counter, Leaves, make_rpc_request-waiting}

-- The next number, the time, and the count of waiting requests.
record World : Type 0 where
  next : ℕ
  time : ℕ
  count : ℕ

abbrev reply : ℕ → Fields
reply id = field "result" (num id) end

-- An item is its number and 100 more.
abbrev link : Link
link = record {
  State = World;
  Ident = ℕ;
  Body = ℕ;
  Value = ℕ;
  Bytes = String;
  Error = String;
  id_discrete = ℕ_discrete;
  enter = λ w. (w, none);
  leave = λ w. w;
  mark_waiting_for_response = λ w. record w { count = w.count + 1 };
  mark_response_received = λ w. record w { count = w.count - 1 };
  send = λ w b. (record w { next = w.next + 1 }, inr (100 + w.next));
  retrieve = λ w id.
      (w, if id % 2 == 0 then got (reply id) else if ltb 1 w.time then got (reply id) else nothing);
  pass_time = λ w. record w { time = w.time + 1 };
  id_of = λ j. elim j [ num n ↦ some n | _ ↦ none ];
  from_hex = λ s. inr s;
  decode_scale = λ w name q. (w, inr (elim q [ json (num n) ↦ n | _ ↦ 0 ]));
}

abbrev start : World
start = record { next = 0; time = 0; count = 0 }

abbrev two : List (Payload link)
two = record { id = 7; payload = 1 } ∷ record { id = 8; payload = 2 } ∷ []

abbrev plain : Options link
plain = record { storage = none; result_handler = none }

abbrev item : StorageItem String
item = record { modifier = "Default"; default_value = bytes "0" }

abbrev values : Options link
values = record { storage = some ("u32", item); result_handler = none }

-- The second item is answered in the third round.
abbrev both : List (ℕ × List (Decoded ℕ))
both = (7, value 100 ∷ []) ∷ (8, value 101 ∷ []) ∷ []

abbrev after : World
after = record { next = 2; time = 2; count = 0 }

both_answered : make_rpc_request link 3 values start two ≡ returned after both
unfolding make_rpc_request request_all started unique send_all add_sent poll pass visit receive
    respond subscribe overwrite add_answer process_response handle decoded decode_with as_value
    raw_value query_value value_type missing_type field_of init append_bounded add_request
    add_response info_of is_open all_complete is_complete get_results has lookup put ℕ_discrete
both_answered = refl

make_rpc_request-Answers_example : All (λ e. All (Answers link values two e.0) e.1) both
make_rpc_request-Answers_example =
    make_rpc_request-Answers link values two 3 start after both both_answered

make_rpc_request_complete_example :
    Distinct ℕ_discrete (keys both)
    × (has ℕ_discrete 8 (keys both) ≡ has ℕ_discrete 8 (map (λ (p : Payload link). p.id) two))
make_rpc_request_complete_example =
    make_rpc_request_complete link values two 3 start after both both_answered 8

abbrev counter : Counter link values
counter = record {
  waiting = λ w. w.count;
  marked = λ w. refl;
  unmarked = λ w n e. omega arith;
  entered = λ w. refl;
  left = λ w. refl;
  sent = λ w b. refl;
  retrieved = λ w id. refl;
  passed = λ w. refl;
  scaled = λ w name q. refl;
  handled = λ h w d id e. absurd (cc e);
}

distinct : unique link (map (λ (p : Payload link). p.id) two) ≡ true
unfolding unique has ℕ_discrete
distinct = refl

make_rpc_request-waiting_example :
    Leaves link values counter 0 (make_rpc_request link 3 values start two)
make_rpc_request-waiting_example =
    make_rpc_request-waiting link values counter 3 start two distinct refl
