-- ===== src/Link.antt =====
-- The websocket as the request loop uses it, and `_process_response` of AsyncSubstrateInterface in
-- async_substrate_interface/async_substrate.py, which decodes a response or hands it to a handler.
use Prim.Native.String.{◌++◌ as join}
use async_substrate_interfac.Prelude.{◌⊎◌, inl, inr, Bool, true, Option, none, some, String}
use async_substrate_interfac.Prelude.Strings.{String-discrete}
use async_substrate_interfac.Json.{Json, null, str, Fields, field_of}
use async_substrate_interfac.Websocket.State.{Retrieved}

-- What is given to the decoder: bytes, or what a response holds instead.
pub data Raw (Bytes : Type 0) : Type 0 where
  bytes : Bytes → Raw Bytes
  json : Json → Raw Bytes

-- A response as it came, or the value decoded from it.
pub data Decoded (Value : Type 0) : Type 0 where
  response : Fields → Decoded Value
  value : Value → Decoded Value

pub record StorageItem (Bytes : Type 0) : Type 0 where
  pub modifier : String
  pub default_value : Raw Bytes

-- The websocket as the request loop uses it, and what is not of this repository; each function does
-- what happens until the call returns, what other tasks do meanwhile included. Payload ids, ids of
-- requests and of subscriptions are of one type, as the loop compares them. `enter` and `leave` are
-- those of `async with self.ws`, `pass_time` is `asyncio.sleep(0.01)`, `from_hex` reads the digits
-- after the first two characters, `id_of` is a value as a key of a dictionary, none where it cannot be
-- one.
pub record Link : Type 1 where
  pub State : Type 0
  pub Ident : Type 0
  pub Body : Type 0
  pub Value : Type 0
  pub Bytes : Type 0
  pub Error : Type 0
  pub id_discrete : Discrete Ident
  pub enter : State → State × Option Error
  pub leave : State → State
  pub mark_waiting_for_response : State → State
  pub mark_response_received : State → State
  pub send : State → Body → State × (Error ⊎ Ident)
  pub retrieve : State → Ident → State × Retrieved Fields Error
  pub pass_time : State → State
  pub id_of : Json → Option Ident
  pub from_hex : String → Error ⊎ Bytes
  pub decode_scale : State → String → Raw Bytes → State × (Error ⊎ Value)

pub data Exception (Error : Type 0) : Type 0 where
  value_error key_error type_error : Exception Error
  request_exception : Fields → Exception Error
  other : Error → Exception Error

module _ (L : Link) where
  open L use {State, Ident, Body, Value, Bytes, Error, from_hex, decode_scale}

  -- `{"id": ..., "payload": ...}`
  pub record Payload : Type 0 where
    pub id : Ident
    pub payload : Body

  -- `storage` is the type of the value and the storage item, where both are given.
  pub record Options : Type 0 where
    pub storage : Option (String × StorageItem Bytes)
    pub result_handler :
        Option (State → Decoded Value → Ident → State × (Error ⊎ (Decoded Value × Bool)))

  -- Without a result the default counts, and it is an option where the storage item has none.
  unfoldable pub missing_type : String → StorageItem Bytes → String
  unfolding String-discrete
  missing_type name item = elim (String-discrete item.modifier "Default") [
    | yes _ ↦ name
    | no _ ↦ join (join "Option<" name) ">"
  ]

  unfoldable pub value_type : String → StorageItem Bytes → Option Json → String
  unfolding missing_type
  value_type name item none = missing_type name item
  value_type name item (some null) = missing_type name item
  value_type name item (some result) = name

  unfoldable pub query_value : StorageItem Bytes → Option Json → Raw Bytes
  query_value item none = item.default_value
  query_value item (some null) = item.default_value
  query_value item (some result) = json result

  unfoldable pub raw_value : Raw Bytes → Error ⊎ Raw Bytes
  raw_value (json (str s)) = elim (from_hex s) [ inl e ↦ inl e | inr b ↦ inr (bytes b) ]
  raw_value q = inr q

  unfoldable pub as_value : State × (Error ⊎ Value) → State × (Error ⊎ Decoded Value)
  as_value (w, inl e) = (w, inl e)
  as_value (w, inr v) = (w, inr (value v))

  unfoldable pub decode_with : State → String → Error ⊎ Raw Bytes → State × (Error ⊎ Decoded Value)
  unfolding as_value
  decode_with w name (inl e) = (w, inl e)
  decode_with w name (inr q) = as_value (decode_scale w name q)

  unfoldable pub decoded :
      Option (String × StorageItem Bytes) → State → Fields → State × (Error ⊎ Decoded Value)
  unfolding decode_with raw_value query_value value_type field_of
  decoded none w r = (w, inr (response r))
  decoded (some (name, item)) w r =
      decode_with w (value_type name item (field_of "result" r))
        (raw_value (query_value item (field_of "result" r)))

  unfoldable pub handle :
      Options → Ident → State × (Error ⊎ Decoded Value) → State × (Error ⊎ (Decoded Value × Bool))
  handle o item (w, inl e) = (w, inl e)
  handle o item (w, inr d) = elim o.result_handler [
    | none ↦ (w, inr (d, true))
    | some handler ↦ handler w d item
  ]

  -- `_process_response`: the answer, and whether it is the last.
  unfoldable pub process_response :
      Options → State → Fields → Ident → State × (Error ⊎ (Decoded Value × Bool))
  unfolding decoded handle
  process_response o w r item = handle o item (decoded o.storage w r)
