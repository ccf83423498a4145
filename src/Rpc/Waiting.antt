-- ===== src/Rpc/Waiting.antt =====
-- The count of the requests that wait for a response, which keeps the websocket open.
use async_substrate_interfac.Prelude.{
  ℕ, ◌+◌, ◌≡◌, refl, sym, ap, ◌∙◌, ◌⊎◌, inl, inr, Bool, true, not, ◌&&◌, ◌||◌, Option, none, some,
  List, Bool-cases, Option-cases, sum_cases, inr_inj, is_some, map, String,
}
use async_substrate_interfac.Prelude.Dict.{lookup}
use async_substrate_interfac.Json.{Fields, end, field, field_of}
use async_substrate_interfac.Requests.{overwrite_request, add_response}
use async_substrate_interfac.Websocket.State.{Retrieved, nothing, got, raised}
use async_substrate_interfac.Rpc.Induction.{OnStep, OnOutcome, make_rpc_request-OnOutcome}
use async_substrate_interfac.Link.{
  Link, Raw, Decoded, StorageItem, Payload, Options, as_value, decode_with, decoded, handle,
  process_response,
}
use async_substrate_interfac.Rpc.{
  Call, Step, overwrite, subscribe, add_answer, respond, receive, visit, Outcome, add_sent, unique,
  started, make_rpc_request,
}

-- `_waiting_for_response` of a link, which only `mark_waiting_for_response` and
-- `mark_response_received` change.
pub record Counter (L : Link) (o : Options L) : Type 0 where
  pub waiting : L.State → ℕ
  pub marked : (w : L.State) → waiting (L.mark_waiting_for_response w) ≡ waiting w + 1
  pub unmarked :
      (w : L.State) (n : ℕ) → waiting w ≡ n + 1 → waiting (L.mark_response_received w) ≡ n
  pub entered : (w : L.State) → waiting (L.enter w).0 ≡ waiting w
  pub left : (w : L.State) → waiting (L.leave w) ≡ waiting w
  pub sent : (w : L.State) (b : L.Body) → waiting (L.send w b).0 ≡ waiting w
  pub retrieved : (w : L.State) (id : L.Ident) → waiting (L.retrieve w id).0 ≡ waiting w
  pub passed : (w : L.State) → waiting (L.pass_time w) ≡ waiting w
  pub scaled :
      (w : L.State) (name : String) (q : Raw L.Bytes)
      → waiting (L.decode_scale w name q).0 ≡ waiting w
  pub handled :
      (handler : L.State
        → Decoded L.Value
        → L.Ident
        → L.State × (L.Error ⊎ (Decoded L.Value × Bool)))
      (w : L.State) (d : Decoded L.Value) (id : L.Ident)
      → o.result_handler ≡ some handler
      → waiting (handler w d id).0 ≡ waiting w

module _ (L : Link) (o : Options L) (C : Counter L o) where
  open L use {State, Ident, Value, Error, Bytes, id_discrete}
  open C use {waiting}

  abbrev StepAt : ℕ → Step L → Type 0
  StepAt n = OnStep L o (λ c. waiting c.link ≡ n) (λ w. waiting w ≡ n)

  as_value-waiting : (r : State × (Error ⊎ Value)) → (as_value L r).0 ≡ r.0
  unfolding as_value
  as_value-waiting (w, inl e) = refl
  as_value-waiting (w, inr v) = refl

  decode_with-waiting :
      (w : State) (name : String) (q : Error ⊎ Raw Bytes)
      → waiting (decode_with L w name q).0 ≡ waiting w
  unfolding decode_with
  decode_with-waiting w name (inl e) = refl
  decode_with-waiting w name (inr q) =
      ap waiting (as_value-waiting (L.decode_scale w name q)) ∙ C.scaled w name q

  decoded-waiting :
      (s : Option (String × StorageItem Bytes)) (w : State) (r : Fields)
      → waiting (decoded L s w r).0 ≡ waiting w
  unfolding decoded
  decoded-waiting none w r = refl
  decoded-waiting (some (name, item)) w r = decode_with-waiting w _ _

  handle-waiting :
      (item : Ident) (d : State × (Error ⊎ Decoded Value))
      → waiting (handle L o item d).0 ≡ waiting d.0
  unfolding handle
  handle-waiting item (w, inl e) = refl
  handle-waiting item (w, inr d) = elim (Option-cases o.result_handler) [
    | inl no_handler ↦ rw (handle, no_handler) refl
    | inr (handler, found) ↦ rw (handle, found) (C.handled handler w d item found)
  ]

  process_response-waiting :
      (w : State) (r : Fields) (item : Ident)
      → waiting (process_response L o w r item).0 ≡ waiting w
  unfolding process_response
  process_response-waiting w r item =
      handle-waiting item (decoded L o.storage w r) ∙ decoded-waiting o.storage w r

  add_answer-waiting :
      (c : Call L) (item : Ident) (answer : State × (Error ⊎ (Decoded Value × Bool)))
      → StepAt (waiting answer.0) (add_answer L c item answer)
  unfolding add_answer add_response
  add_answer-waiting c item (w, inl e) = refl
  add_answer-waiting c item (w, inr (answer, complete)) =
      elim (Option-cases (lookup id_discrete item c.manager.response_map)) [
        | inl absent ↦ rw (add_answer, add_response, absent) refl
        | inr (request, found) ↦ rw (add_answer, add_response, found) refl
      ]

  overwrite-link :
      (c : Call L) (item : Ident) (r : Fields) (after : Call L × Ident)
      → overwrite L c item r ≡ inr after
      → after.0.link ≡ c.link
  unfolding overwrite overwrite_request
  overwrite-link c item r after e = elim (Option-cases (field_of "result" r)) [
    | inl absent ↦ absurd (cc (rw (overwrite, absent) at e))
    | inr (result, named) ↦ elim (Option-cases (L.id_of result)) [
      | inl no_id ↦ absurd (cc (rw (overwrite, named, no_id) at e))
      | inr (sub, is_id) ↦ elim (Option-cases (lookup id_discrete item c.manager.response_map)) [
        | inl unknown ↦ absurd (cc (rw (overwrite, named, is_id, overwrite_request, unknown) at e))
        | inr (request, found) ↦ sym (
            ap (λ x. x.0.link)
              (inr_inj (rw (overwrite, named, is_id, overwrite_request, found) at e)))
      ]
    ]
  ]

  subscribe-link :
      (c : Call L) (item : Ident) (r : Fields) (after : Call L × Ident)
      → subscribe L o c item r ≡ inr after
      → after.0.link ≡ c.link
  unfolding subscribe
  subscribe-link c item r after e =
      elim (Bool-cases (is_some o.result_handler && not c.subscription_added)) [
        | inl first ↦ overwrite-link c item r after (rw (subscribe, first) at e)
        | inr other ↦ sym (ap (λ x. x.0.link) (inr_inj (rw (subscribe, other) at e)))
      ]

  respond-waiting :
      (c : Call L) (item : Ident) (r : Fields) → StepAt (waiting c.link) (respond L o c item r)
  unfolding respond
  respond-waiting c item r = elim (sum_cases (subscribe L o c item r)) [
    | inl (e, refused) ↦ rw (respond, refused) refl
    | inr ((c', id), done) ↦
        rw
          (
            respond,
            done,
            sym (ap waiting (subscribe-link c item r (c', id) done)),
            sym (process_response-waiting c'.link r id),
          )
          (add_answer-waiting c' id (process_response L o c'.link r id))
  ]

  receive-waiting :
      (c : Call L) (item : Ident) (answer : State × Retrieved Fields Error)
      → StepAt (waiting answer.0) (receive L o c item answer)
  unfolding receive
  receive-waiting c item (w, nothing) = refl
  receive-waiting c item (w, raised e) = refl
  receive-waiting c item (w, got end) = refl
  receive-waiting c item (w, got (field k v l)) =
      respond-waiting (record c { link = w }) item (field k v l)

  visit-waiting : (c : Call L) (item : Ident) → StepAt (waiting c.link) (visit L o c item)
  unfolding visit
  visit-waiting c item =
      elim (Bool-cases
        (not (is_some (lookup id_discrete item c.manager.responses)) || is_some o.result_handler)) [
          | inl asks ↦
              rw (visit, asks, sym (C.retrieved c.link item))
                (receive-waiting c item (L.retrieve c.link item))
          | inr waits ↦ rw (visit, waits) refl
        ]

  -- What is left waiting: nothing of a call that returns, one more where it fails.
  abbrev pub Leaves : ℕ → Outcome L → Type 0
  Leaves n =
      OnOutcome L o (λ c. waiting c.link ≡ n + 1) (λ w. waiting w ≡ n + 1)
        (λ w results. waiting w ≡ n) (λ w. waiting w ≡ n + 1)

  add_sent-waiting :
      (c : Call L) (request : Ident) (reply : State × (Error ⊎ Ident))
      → StepAt (waiting reply.0) (add_sent L c request reply)
  unfolding add_sent
  add_sent-waiting c request (w, inl e) = refl
  add_sent-waiting c request (w, inr item) = refl

  -- Where the ids of the payloads are unique and the connection is there, a call of
  -- `_make_rpc_request` that returns leaves the count of waiting requests as it was, and one that
  -- fails by an exception leaves it one higher.
  pub make_rpc_request-waiting :
      (fuel : ℕ) (w : State) (payloads : List (Payload L))
      → unique L (map (λ (p : Payload L). p.id) payloads) ≡ true
      → (L.enter w).1 ≡ none
      → Leaves (waiting w) (make_rpc_request L fuel o w payloads)
  unfolding started
  make_rpc_request-waiting fuel w payloads distinct fine =
      make_rpc_request-OnOutcome L o (λ c. waiting c.link ≡ waiting w + 1)
        (λ w'. waiting w' ≡ waiting w + 1) (λ w' results. waiting w' ≡ waiting w)
        (λ w'. waiting w' ≡ waiting w + 1) fuel w payloads distinct fine
        (C.marked (L.enter w).0 ∙ ap (λ n. n + 1) (C.entered w))
        (λ c p here at.
          rw (sym at, sym (C.sent c.link p.payload))
            (add_sent-waiting c p.id (L.send c.link p.payload)))
        (λ c item at. rw (sym at) (visit-waiting c item)) (λ c at. C.passed c.link ∙ at)
        (λ c at done. C.left _ ∙ C.unmarked c.link (waiting w) at) (λ w' at. C.left w' ∙ at)
