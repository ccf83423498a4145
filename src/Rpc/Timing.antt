-- ===== src/Rpc/Timing.antt =====
-- Requests over a link that answers each item two pauses after it was sent, gives nothing for an item
-- that was not sent or has been retrieved, and uses its ids again.
use async_substrate_interfac.Prelude.{
  ℕ, ◌+◌, ◌≤◌, ◌<◌, ◌≡◌, ◌≢◌, ◌⊎◌, refl, sym, ap, ◌∙◌, inl, inr, inr_inj, true, none, some, Option,
  List, [], ◌∷◌, String, ltb, if◌then◌else◌, if_pos, if_neg, map, ℕ_discrete, Bool-cases, arith,
}
use async_substrate_interfac.Prelude.Dict.{lookup, put, remove, lookup-put, lookup-remove}
use async_substrate_interfac.Prelude.Distinct.{has}
use async_substrate_interfac.Json.{Json, num, Fields, end, field}
use async_substrate_interfac.Websocket.State.{Retrieved, nothing, got}
use async_substrate_interfac.Link.{
  Decoded, response, Link, Payload, Options, process_response, decoded, handle,
}
use async_substrate_interfac.Rpc.{returned, unique, make_rpc_request}
use async_substrate_interfac.Rpc.Ends.{Prompt}
use async_substrate_interfac.Rpc.Sends.{make_rpc_request-returns}

-- The time, and what is in flight, with the time of its answer.
record World : Type 0 where
  time : ℕ
  inflight : List (ℕ × ℕ)

-- An id above all that are in flight.
unfoldable next_id : List (ℕ × ℕ) → ℕ
next_id [] = 100
next_id ((i, t) ∷ l) = i + next_id l

next_id-least : (l : List (ℕ × ℕ)) → 100 ≤ next_id l
unfolding next_id
next_id-least [] = omega arith
next_id-least ((i, t) ∷ l) = omega (arith, next_id-least l)

next_id-above : (i t : ℕ) (l : List (ℕ × ℕ)) → lookup ℕ_discrete i l ≡ some t → i < next_id l
unfolding next_id lookup
next_id-above i t [] h = absurd (cc h)
next_id-above i t ((k, t') ∷ l) h = elim (ℕ_discrete i k) [
  | yes same ↦ omega (arith, same, next_id-least l)
  | no other ↦
      let below = next_id-above i t l (rw (lookup, if_neg (ℕ_discrete i k) other) at h) in
      omega (arith, below)
]

unfoldable found : World → ℕ → Option ℕ → World × Retrieved Fields String
found w id none = (w, nothing)
found w id (some t) = if ltb w.time t then (w, nothing) else (
  record w { inflight = remove ℕ_discrete id w.inflight },
  got (field "result" (num id) end),
)

abbrev link : Link
link = record {
  State = World;
  Ident = ℕ;
  Body = ℕ;
  Value = ℕ;
  Bytes = String;
  Error = String;
  id_discrete = ℕ_discrete;
  enter = λ w. (w, none);
  leave = λ w. w;
  mark_waiting_for_response = λ w. w;
  mark_response_received = λ w. w;
  send = λ w b. (
    record w { inflight = put ℕ_discrete (next_id w.inflight) (w.time + 2) w.inflight },
    inr (next_id w.inflight),
  );
  retrieve = λ w id. found w id (lookup ℕ_discrete id w.inflight);
  pass_time = λ w. record w { time = w.time + 1 };
  id_of = λ j. none;
  from_hex = λ s. inr s;
  decode_scale = λ w name q. (w, inr 0);
}

abbrev plain : Options link
plain = record { storage = none; result_handler = none }

-- An item is in flight, and its answer comes by the time.
abbrev Due : World → ℕ → ℕ → Type 0
Due w i d = (t : ℕ) × (lookup ℕ_discrete i w.inflight ≡ some t) × (t ≤ d)

send-new : (w : World) (d : ℕ) → Due w (next_id w.inflight) d → ⊥
send-new w d (t, there, le) = absurd (omega (arith, next_id-above _ t w.inflight there))

abbrev sent : World → World
sent w = record w { inflight = put ℕ_discrete (next_id w.inflight) (w.time + 2) w.inflight }

send-Due : (w : World) → Due (sent w) (next_id w.inflight) (w.time + 2)
send-Due w =
    let id = next_id w.inflight in
    (
      w.time + 2,
      lookup-put ℕ_discrete id (w.time + 2) w.inflight id
          ∙ if_pos (ℕ_discrete id id) refl (some (w.time + 2)) (lookup ℕ_discrete id w.inflight),
      omega arith,
    )

send-kept : (w : World) (i d : ℕ) → Due w i d → Due (sent w) i d
send-kept w i d (t, there, le) =
    let id = next_id w.inflight in
    (
      t,
      lookup-put ℕ_discrete id (w.time + 2) w.inflight i
          ∙ if_neg (ℕ_discrete i id)
              (λ same.
                send-new w d (t, ap (λ k. lookup ℕ_discrete k w.inflight) (sym same) ∙ there, le))
              (some (w.time + 2)) (lookup ℕ_discrete i w.inflight)
          ∙ there,
      le,
    )

-- What is in flight besides an item stays there when it is retrieved.
others_kept :
    (w : World) (item i d : ℕ)
    → i ≢ item
    → Due w i d
    → Due (record w { inflight = remove ℕ_discrete item w.inflight }) i d
others_kept w item i d other (t, there, le) = (
  t,
  lookup-remove ℕ_discrete item w.inflight i
      ∙ if_neg (ℕ_discrete i item) other none (lookup ℕ_discrete i w.inflight)
      ∙ there,
  le,
)

retrieve-timely :
    (w : World) (item d t : ℕ)
    → lookup ℕ_discrete item w.inflight ≡ some t
    → t ≤ d
    → (w.time + 1 ≤ d) × (found w item (some t) ≡ (w, nothing))
      ⊎ (found w item (some t) ≡ (
        record w { inflight = remove ℕ_discrete item w.inflight },
        got (field "result" (num item) end),
      ))
unfolding found
retrieve-timely w item d t there le = elim (Bool-cases (ltb w.time t)) [
  | inl early ↦ inl (ground (arith, early, le), rw early refl)
  | inr late ↦ inr (rw late refl)
]

retrieved :
    (w : World) (item d t : ℕ) (r : World × Retrieved Fields String)
    → (w.time + 1 ≤ d) × (r ≡ (w, nothing))
      ⊎ (r ≡ (
        record w { inflight = remove ℕ_discrete item w.inflight },
        got (field "result" (num item) end),
      ))
    → (r.1 ≡ nothing)
        × (r.0.time ≡ w.time)
        × (w.time + 1 ≤ d)
        × ((i : ℕ) (d' : ℕ) → Due w i d' → Due r.0 i d')
      ⊎ (k : String) × (v : Json) × (l : Fields) × (w1 : World) × (answer : Decoded ℕ) × (r.1
          ≡ got (field k v l))
        × (process_response link plain r.0 (field k v l) item ≡ (w1, inr (answer, true)))
        × (w1.time ≡ w.time)
        × ((i : ℕ) (d' : ℕ) → i ≢ item → Due w i d' → Due w1 i d')
unfolding process_response decoded handle
retrieved w item d t r (inl (early, e)) =
    inl (ap (λ x. x.1) e, ap (λ x. x.0.time) e, early, λ i d' due. rw e due)
retrieved w item d t r (inr e) =
    let w1 : World = record w { inflight = remove ℕ_discrete item w.inflight } in
    let answer = field "result" (num item) end in
    inr (
      "result",
      num item,
      end,
      w1,
      response answer,
      ap (λ x. x.1) e,
      ap (λ x. process_response link plain x.0 answer item) e,
      refl,
      λ i d' other due. others_kept w item i d' other due,
    )

abbrev prompt : Prompt link plain
prompt = record {
  clock = λ w. w.time;
  delay = 2;
  Due = Due;
  room = λ w. 998;
  paused = λ w. refl;
  still_due = λ w item d due. due;
  sends = λ w b room.
      (next_id w.inflight, refl, send-new w, send-Due w, refl, omega arith, send-kept w);
  timely = λ w item d (t, there, le).
      retrieved w item d t (found w item (lookup ℕ_discrete item w.inflight))
        (rw there (retrieve-timely w item d t there le));
}

abbrev start : World
start = record { time = 5; inflight = [] }

abbrev two : List (Payload link)
two = record { id = 7; payload = 1 } ∷ record { id = 8; payload = 2 } ∷ []

distinct : unique link (map (λ (p : Payload link). p.id) two) ≡ true
unfolding unique has ℕ_discrete
distinct = refl

-- No item is below 100.
apart : (n : ℕ) (l : List (ℕ × ℕ)) → n < 100 → ◌≢◌ {A = String ⊎ ℕ} (inr (next_id l)) (inr n)
apart n l small e = absurd (omega (arith, next_id-least l, inr_inj e, small))

make_rpc_request-returns_example :
    (w : World) × (results : List (ℕ × List (Decoded ℕ))) × (make_rpc_request link 3 plain start two
      ≡ returned w results)
make_rpc_request-returns_example =
    make_rpc_request-returns link plain prompt start two refl refl distinct
      ((λ w b. apart 7 w.inflight (omega arith)), ((λ w b. apart 8 w.inflight (omega arith)), tt))
      (omega arith)
