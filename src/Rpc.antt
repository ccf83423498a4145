-- ===== src/Rpc.antt =====
-- The request loop of AsyncSubstrateInterface in async_substrate_interface/async_substrate.py:
-- `_make_rpc_request`, over a RequestManager and a Link.
pub mod Induction
pub mod Origins
pub mod Answers
pub mod Waiting
pub mod Ends
pub mod Returns
pub mod Sends
mod Tests
mod Timing
use Prim.Native.String.{◌++◌ as join}
use async_substrate_interfac.Prelude.{
  ℕ, zero, suc, ◌⊎◌, inl, inr, Bool, true, false, not, ◌&&◌, ◌||◌, Option, none, some, List, [],
  ◌∷◌, String, if◌then◌else◌, is_some, map, length,
}
use async_substrate_interfac.Prelude.Strings.{String-discrete}
use async_substrate_interfac.Prelude.Dict.{lookup}
use async_substrate_interfac.Prelude.Distinct.{has}
use async_substrate_interfac.Json.{Json, null, str, Fields, end, field, field_of}
use async_substrate_interfac.Requests.{
  RequestManager, init, add_request, overwrite_request, add_response, is_open, is_complete,
  get_results,
}
use async_substrate_interfac.Websocket.State.{Retrieved, nothing, got, raised}
use async_substrate_interfac.Link.{
  Decoded, Link, Exception, value_error, key_error, type_error, request_exception, other, Payload,
  Options, process_response,
}

module _ (L : Link) where
  open L use {
    State, Ident, Value, Error, id_discrete, enter, leave, mark_waiting_for_response,
    mark_response_received, send, retrieve, pass_time, id_of,
  }

  -- The state of a call: the link, and the local variables.
  pub record Call : Type 0 where
    pub link : State
    pub manager : RequestManager Ident Ident (Decoded Value)
    pub subscription_added : Bool

  pub data Step : Type 0 where
    going : Call → Step
    broken : State → Exception Error → Step

  -- The item under its subscription id.
  unfoldable pub overwrite : Call → Ident → Fields → Exception Error ⊎ (Call × Ident)
  unfolding field_of
  overwrite c item r = elim (field_of "result" r) [
    | none ↦ inl (request_exception r)
    | some result ↦ elim (id_of result) [
      | none ↦ inl type_error
      | some sub ↦ elim (overwrite_request id_discrete c.manager item sub) [
        | none ↦ inl (request_exception r)
        | some (m, id) ↦ inr (record c { manager = m; subscription_added = true }, id)
      ]
    ]
  ]

  unfoldable pub subscribe : Options L → Call → Ident → Fields → Exception Error ⊎ (Call × Ident)
  subscribe o c item r = elim (is_some o.result_handler && not c.subscription_added) [
    | true ↦ overwrite c item r
    | false ↦ inr (c, item)
  ]

  unfoldable pub add_answer : Call → Ident → State × (Error ⊎ (Decoded Value × Bool)) → Step
  add_answer c item (w, inl e) = broken w (other e)
  add_answer c item (w, inr (answer, complete)) =
      elim (add_response id_discrete id_discrete c.manager item answer complete) [
        | none ↦ broken w key_error
        | some m ↦ going (record c { link = w; manager = m })
      ]

  -- What the loop does with a response.
  unfoldable pub respond : Options L → Call → Ident → Fields → Step
  respond o c item r = elim (subscribe o c item r) [
    | inl e ↦ broken c.link e
    | inr (c', id) ↦ add_answer c' id (process_response L o c'.link r id)
  ]

  -- An empty response counts as none.
  unfoldable pub receive : Options L → Call → Ident → State × Retrieved Fields Error → Step
  receive o c item (w, nothing) = going (record c { link = w })
  receive o c item (w, raised e) = broken w (other e)
  receive o c item (w, got end) = going (record c { link = w })
  receive o c item (w, got (field k v l)) = respond o (record c { link = w }) item (field k v l)

  -- The body of the inner loop. The test looks for the id of an item among those of payloads.
  unfoldable pub visit : Options L → Call → Ident → Step
  visit o c item =
      if not (is_some (lookup id_discrete item c.manager.responses)) || is_some o.result_handler
      then receive o c item (retrieve c.link item)
      else going c

  -- The inner loop: the items are those of its start, whether one is open is seen when it is reached.
  unfoldable pub pass : Options L → Call → List (Ident × Ident) → Step
  pass o c [] = going c
  pass o c ((item, request) ∷ l) = elim (is_open id_discrete c.manager.responses request) [
    | false ↦ pass o c l
    | true ↦ elim (visit o c item) [ broken w e ↦ broken w e | going c' ↦ pass o c' l ]
  ]

  -- How a call ends; `unfinished` is the end of the fuel.
  pub data Outcome : Type 0 where
    returned : State → List (Ident × List (Decoded Value)) → Outcome
    failed : State → Exception Error → Outcome
    unfinished : Outcome

  -- `while True`, with fuel for the rounds.
  unfoldable pub poll : ℕ → Options L → Call → Outcome
  poll zero o c = unfinished
  poll (suc n) o c = elim (pass o c c.manager.response_map) [
    | broken w e ↦ failed (leave w) e
    | going c' ↦ elim (is_complete c'.manager) [
      | true ↦ returned (leave (mark_response_received c'.link)) (get_results c'.manager)
      | false ↦ poll n o (record c' { link = pass_time c'.link })
    ]
  ]

  unfoldable pub add_sent : Call → Ident → State × (Error ⊎ Ident) → Step
  add_sent c request (w, inl e) = broken w (other e)
  add_sent c request (w, inr item) =
      going (record c { link = w; manager = add_request id_discrete c.manager item request })

  unfoldable pub send_all : Call → List (Payload L) → Step
  unfolding add_sent
  send_all c [] = going c
  send_all c (p ∷ l) = elim (add_sent c p.id (send c.link p.payload)) [
    | broken w e ↦ broken w e
    | going c' ↦ send_all c' l
  ]

  -- `len(set(...)) != len(payloads)` does not hold.
  unfoldable pub unique : List Ident → Bool
  unfolding has
  unique [] = true
  unique (x ∷ l) = not (has id_discrete x l) && unique l

  unfoldable pub started : State → ℕ → Call
  unfolding init
  started w n = record {
    link = mark_waiting_for_response w;
    manager = init n;
    subscription_added = false;
  }

  unfoldable pub request_all : ℕ → Options L → List (Payload L) → State × Option Error → Outcome
  unfolding send_all started
  request_all n o payloads (w, some e) = failed w (other e)
  request_all n o payloads (w, none) = elim (send_all (started w (length payloads)) payloads) [
    | broken w' e ↦ failed (leave w') e
    | going c ↦ poll n o c
  ]

  -- `_make_rpc_request`
  unfoldable pub make_rpc_request : ℕ → Options L → State → List (Payload L) → Outcome
  unfolding unique
  make_rpc_request n o w payloads =
      if unique (map (λ (p : Payload L). p.id) payloads)
      then request_all n o payloads (enter w)
      else failed w value_error
