-- ===== src/Extrinsics/Submit.antt =====
-- `submit_extrinsic` of async_substrate_interface/async_substrate.py: `result_handler`, which reads the
-- messages of the subscription to an extrinsic, and what becomes of the extrinsic over a sequence of
-- messages.
pub mod Watch
use async_substrate_interfac.Prelude.{
  ℕ, ◌+◌, Bool, true, false, not, ◌&&◌, ◌||◌, Option, none, some, List, [], ◌∷◌, String,
  if◌then◌else◌, leb, ◌==◌, is_some, map,
}
use async_substrate_interfac.Json.{
  Json, null, num, str, tuple, dict, Fields, end, field, key_of, field_of,
}
use async_substrate_interfac.Receipts.Events.{codes}

unfoldable pub to_lower : ℕ → ℕ
to_lower c = if leb 65 c && leb c 90 then c + 32 else c

unfoldable pub same_codes : List ℕ → List ℕ → Bool
same_codes [] [] = true
same_codes (a ∷ l) (b ∷ m) = (a == b) && same_codes l m
same_codes _ _ = false

-- The entry of `{k.lower(): v for k, v in ...}` at a key; the last of several stays.
unfoldable pub lower_field : String → Fields → Option Json
unfolding to_lower same_codes codes
lower_field key end = none
lower_field key (field k v l) =
    let later = lower_field key l in
    if is_some later
    then later
    else if same_codes (map to_lower (codes k)) (codes key)
    then some v
    else none

abbrev pub has_status : String → Fields → Bool
has_status key status = is_some (lower_field key status)

-- `if key in message_result: failure_message = ...`
unfoldable pub override : Option String → String → Fields → Option String
override failure key status = if has_status key status then some key else failure

unfoldable pub failure_of : Fields → Option String
unfolding override
failure_of status =
    override
      (override
        (override (override (override none "usurped" status) "retracted" status) "finalitytimeout"
          status)
        "dropped" status)
      "invalid" status

-- What the handler does with a message: it raises after it has unsubscribed, it ends with a block hash
-- after it has unsubscribed, it waits for more, or it raises a KeyError or a TypeError.
pub data Handled : Type 0 where
  failed : String → Handled
  included : Option Json → Bool → Handled
  unfinished : Handled
  key_error : Handled

unfoldable pub handle_status : Bool → Bool → Fields → Handled
handle_status wait_for_inclusion wait_for_finalization status = elim (failure_of status) [
  | some failure ↦ failed failure
  | none ↦
      if has_status "finalized" status && wait_for_finalization
      then included (lower_field "finalized" status) true
      else if has_status "inblock" status && wait_for_inclusion && not wait_for_finalization
      then included (lower_field "inblock" status) false
      else unfinished
]

-- The result of the message's params.
unfoldable pub handle_result : Bool → Bool → Json → Handled
handle_result wait_for_inclusion wait_for_finalization (dict status) =
    handle_status wait_for_inclusion wait_for_finalization status
handle_result wait_for_inclusion wait_for_finalization (str s) =
    if same_codes (codes s) (codes "invalid") then failed "invalid" else unfinished
handle_result wait_for_inclusion wait_for_finalization _ = unfinished

unfoldable pub handle_params : Bool → Bool → Json → Handled
handle_params wait_for_inclusion wait_for_finalization params = elim (key_of "result" params) [
  | none ↦ key_error
  | some result ↦ handle_result wait_for_inclusion wait_for_finalization result
]

-- A message is a dictionary.
unfoldable pub result_handler : Bool → Bool → Fields → Handled
result_handler wait_for_inclusion wait_for_finalization message = elim (field_of "params" message) [
  | none ↦ unfinished
  | some params ↦ handle_params wait_for_inclusion wait_for_finalization params
]

-- What becomes of an extrinsic: the exception, the block it is in and whether that is final, or that
-- the messages have not decided yet, or that another exception ends it.
pub data Submitted : Type 0 where
  rejected : String → Submitted
  in_block : Option Json → Bool → Submitted
  waiting : Submitted
  broken : Submitted

unfoldable pub next_message : Handled → Submitted → Submitted
next_message (failed f) rest = rejected f
next_message (included h final) rest = in_block h final
next_message unfinished rest = rest
next_message key_error rest = broken

-- The messages that come, in their order.
unfoldable pub read_messages : Bool → Bool → List Fields → Submitted
unfolding next_message
read_messages wait_for_inclusion wait_for_finalization [] = waiting
read_messages wait_for_inclusion wait_for_finalization (m ∷ l) =
    next_message (result_handler wait_for_inclusion wait_for_finalization m)
      (read_messages wait_for_inclusion wait_for_finalization l)

-- The subscription, over the messages that come, the reply to the request first. A reply without a
-- result names no subscription: `_make_rpc_request` raises SubstrateRequestException.
unfoldable pub watch : Bool → Bool → List Fields → Submitted
unfolding read_messages
watch wait_for_inclusion wait_for_finalization [] = waiting
watch wait_for_inclusion wait_for_finalization (reply ∷ l) =
    if is_some (field_of "result" reply)
    then read_messages wait_for_inclusion wait_for_finalization (reply ∷ l)
    else broken
