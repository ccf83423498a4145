-- ===== src/Request.antt =====
-- `rpc_request` of AsyncSubstrateInterface in async_substrate_interface/async_substrate.py, with
-- `_get_current_block_hash`: what it makes of the first response of the node, and when it asks again.
pub mod Retries
mod Tests
use async_substrate_interfac.Prelude.{
  ℕ, zero, suc, ◌⊎◌, inl, inr, Bool, true, false, Option, none, some, List, [], ◌∷◌, ◌++◌, String,
  if◌then◌else◌, is_some,
}
use async_substrate_interfac.Json.{Json, str, Fields, field_of, key_of, contains}

-- What `rpc_request` uses. `ask` is the first response to its payload in what `_make_rpc_request`
-- returns, for the parameters of the method; `init_runtime` is asked for the runtime at a hash.
pub record Client : Type 1 where
  pub State : Type 0
  pub Error : Type 0
  pub last_block_hash : State → Option String
  pub set_last_block_hash : State → String → State
  pub ask : State → List Json → State × (Error ⊎ Fields)
  pub init_runtime : State → Option String → State × Option Error

-- How a request ends; `unfinished` is the end of the fuel.
pub data End (Error : Type 0) : Type 0 where
  answered : Fields → End Error
  state_discarded : Json → End Error
  request_exception : Json → End Error
  no_result : Fields → End Error
  key_error type_error index_error : End Error
  other : Error → End Error
  unfinished : End Error

-- What a response leads to: an end, or another request.
pub data Verdict (Error : Type 0) : Type 0 where
  ends : End Error → Verdict Error
  again : Verdict Error

-- The hash is what follows in the message.
unfoldable pub discarded : {Error : Type 0} → Json → Verdict Error
unfolding contains
discarded msg = elim (contains "State already discarded for " msg) [
  | some true ↦ ends (state_discarded msg)
  | _ ↦ ends index_error
]

unfoldable pub other_error : {Error : Type 0} → Json → Verdict Error
unfolding contains discarded
other_error msg =
    elim (contains "Client error: Api called for an unknown Block: State already discarded" msg) [
      | some true ↦ discarded msg
      | some false ↦ ends (request_exception msg)
      | none ↦ ends type_error
    ]

unfoldable pub message_verdict : {Error : Type 0} → Json → Verdict Error
unfolding contains other_error
message_verdict msg = elim (contains "Failed to get runtime version" msg) [
  | some true ↦ again
  | some false ↦ other_error msg
  | none ↦ ends type_error
]

unfoldable pub verdict : {Error : Type 0} → Fields → Verdict Error
unfolding field_of key_of message_verdict
verdict response = elim (field_of "error" response) [
  | none ↦
      if is_some (field_of "result" response)
      then ends (answered response)
      else ends (no_result response)
  | some error ↦ elim (key_of "message" error) [
    | none ↦ ends key_error
    | some msg ↦ message_verdict msg
  ]
]

-- `params + [block_hash] if block_hash else params`
unfoldable pub with_hash : List Json → Option String → List Json
with_hash params none = params
with_hash params (some hash) = params ++ str hash ∷ []

module _ (C : Client) where
  open C use {State, Error, last_block_hash, set_last_block_hash, ask, init_runtime}

  -- An empty hash counts as none.
  unfoldable pub get_current_block_hash : State → Option String → Bool → State × Option String
  get_current_block_hash s (some hash) reuse = (set_last_block_hash s hash, some hash)
  get_current_block_hash s none reuse = (s, if reuse then last_block_hash s else none)

  -- The request of one attempt: the state after, the hash, and what the response leads to.
  unfoldable pub judge : State × (Error ⊎ Fields) → State × Verdict Error
  unfolding verdict
  judge (s, inl e) = (s, ends (other e))
  judge (s, inr response) = (s, verdict response)

  unfoldable pub attempt : State → List Json → State × Option String → State × Verdict Error
  unfolding judge with_hash
  attempt s params (s', hash) = judge (ask s' (with_hash params hash))

  unfoldable pub initialised : State × Option Error → State × Verdict Error
  initialised (s, none) = (s, again)
  initialised (s, some e) = (s, ends (other e))

  -- Before another attempt the runtime is read anew.
  unfoldable pub prepare : State × Verdict Error → Option String → State × Verdict Error
  unfolding initialised
  prepare (s, ends e) hash = (s, ends e)
  prepare (s, again) hash = initialised (init_runtime s hash)

  -- One attempt, and the hash that it was made with.
  unfoldable pub try_once :
      State → List Json → Option String → Bool → (State × Verdict Error) × Option String
  unfolding get_current_block_hash attempt prepare
  try_once s params block_hash reuse =
      let current = get_current_block_hash s block_hash reuse in
      (prepare (attempt s params current) current.1, current.1)

  -- `rpc_request`, with fuel for the attempts.
  unfoldable pub rpc_request : ℕ → State → List Json → Option String → Bool → State × End Error
  rpc_request zero s params block_hash reuse = (s, unfinished)
  rpc_request (suc n) s params block_hash reuse =
      let r = try_once s params block_hash reuse in
      elim r.0.1 [ ends e ↦ (r.0.0, e) | again ↦ rpc_request n r.0.0 params r.1 reuse ]
