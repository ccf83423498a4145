-- ===== src/Receipts/Events.antt =====
-- async_substrate_interface/utils/receipt.py: what an event says of the extrinsic. A KeyError, a
-- TypeError and a ValueError are `none`.
use text.Mathlib.Text.{◌==◌ as str_eq}
use Prim.Native.Char.{code}
use Prim.Native.String
use async_substrate_interfac.Prelude.{
  ℕ, ◌+◌, ◌-◌, ◌*◌, Bool, true, false, ◌&&◌, ◌||◌, Option, none, some, List, [], ◌∷◌, String,
  if◌then◌else◌, leb,
}
use async_substrate_interfac.Json.{Json, null, num, str, tuple, item, ◌>>=◌, key_of, contains}

-- An event, with the index of its extrinsic in the block.
pub record Event : Type 0 where
  pub extrinsic_idx : Option ℕ
  pub module_id : String
  pub event_id : String
  pub attributes : Json

unfoldable pub is_event : String → String → Event → Bool
is_event module_id event_id e = str_eq e.module_id module_id && str_eq e.event_id event_id

-- The total so far, and whether a TransactionFeePaid has been seen.
unfoldable pub fee_step : Event → Json × Bool → Option (Json × Bool)
fee_step e total =
    if is_event "TransactionPayment" "TransactionFeePaid" e
    then (key_of "actual_fee" e.attributes >>= λ fee. some (fee, true))
    else some total

unfoldable pub fee_loop : List Event → Json × Bool → Option (Json × Bool)
unfolding fee_step
fee_loop [] total = some total
fee_loop (e ∷ l) total = fee_step e total >>= λ t. fee_loop l t

unfoldable pub extract_total_fee_amount : List Event → Option (Json × Bool)
unfolding fee_loop
extract_total_fee_amount events = fee_loop events (num 0, false)

unfoldable pub extract_fallback_deposit_fee_amount : Event → Option Json
unfolding is_event key_of
extract_fallback_deposit_fee_amount e =
    if is_event "Treasury" "Deposit" e
    then key_of "value" e.attributes
    else if is_event "Balances" "Deposit" e
    then key_of "amount" e.attributes
    else some (num 0)

unfoldable pub is_extrinsic_success_event : Event → Bool
unfolding is_event
is_extrinsic_success_event e = is_event "System" "ExtrinsicSuccess" e

unfoldable pub is_extrinsic_failure_event : Event → Bool
unfolding is_event
is_extrinsic_failure_event e =
    is_event "System" "ExtrinsicFailed" e
    || (str_eq e.module_id "MevShield"
        && (str_eq e.event_id "DecryptedRejected" || str_eq e.event_id "DecryptionFailed"))

unfoldable pub extract_success_weight : Event → Option Json
unfolding key_of contains
extract_success_weight e = contains "dispatch_info" e.attributes >>= λ has_info.
    if has_info
    then (key_of "dispatch_info" e.attributes >>= λ info. key_of "weight" info)
    else key_of "weight" e.attributes

-- An error message: its type, its name and its docs.
pub record ErrorMessage : Type 0 where
  pub kind : String
  pub name : Json
  pub docs : Json

pub record FailureDetails : Type 0 where
  pub has_weight : Bool
  pub weight : Json
  pub dispatch_error : Json
  pub error_message : Option ErrorMessage

unfoldable pub system_details : Json → Option FailureDetails
unfolding key_of
system_details attributes = do
  info ← key_of "dispatch_info" attributes
  spent ← key_of "weight" info
  failure ← key_of "dispatch_error" attributes
  some
      (record { has_weight = true; weight = spent; dispatch_error = failure; error_message = none })

unfoldable pub rejected_details : Json → Option FailureDetails
unfolding key_of
rejected_details attributes = do
  reason ← key_of "reason" attributes
  post_info ← key_of "post_info" reason
  spent ← key_of "actual_weight" post_info
  failure ← key_of "error" reason
  some
      (record { has_weight = true; weight = spent; dispatch_error = failure; error_message = none })

unfoldable pub decryption_details : Json → Option FailureDetails
unfolding key_of
decryption_details attributes = do
  reason ← key_of "reason" attributes
  some (record {
    has_weight = false;
    weight = null;
    dispatch_error = null;
    error_message =
        some (record { kind = "MevShield"; name = str "DecryptionFailed"; docs = reason });
  })

unfoldable pub extract_failure_details : Event → Option FailureDetails
unfolding system_details rejected_details decryption_details
extract_failure_details e =
    if str_eq e.module_id "System"
    then system_details e.attributes
    else if str_eq e.event_id "DecryptedRejected"
    then rejected_details e.attributes
    else decryption_details e.attributes

-- A hexadecimal digit of `int(..., 16)`; a ValueError is `none`.
unfoldable pub hex_value : ℕ → Option ℕ
hex_value c =
    if leb 48 c && leb c 57
    then some (c - 48)
    else if leb 97 c && leb c 102
    then some (c - 87)
    else if leb 65 c && leb c 70
    then some (c - 55)
    else none

-- `int(error_index[2:4], 16)`, for a text of hexadecimal digits.
unfoldable pub third_byte : List ℕ → Option ℕ
unfolding hex_value
third_byte (a ∷ b ∷ c ∷ []) = hex_value c
third_byte (a ∷ b ∷ c ∷ d ∷ l) = do high ← hex_value c; low ← hex_value d; some (high * 16 + low)
third_byte _ = none

unfoldable pub codes : String → List ℕ
codes Prim.Native.String.[] = []
codes (Prim.Native.String.◌∷◌ c s) = code c ∷ codes s

-- The first byte of an error index that is a text; another index is left.
unfoldable pub normal_index : Json → Option Json
unfolding third_byte codes
normal_index (str s) = third_byte (codes s) >>= λ n. some (num n)
normal_index v = some v

-- The index of the module and that of the error.
unfoldable pub module_indices : Json → Option (Json × Json)
unfolding key_of normal_index
module_indices (tuple (item m (item e rest))) = normal_index e >>= λ n. some (m, n)
module_indices (tuple _) = none
module_indices failure = do
  m ← key_of "index" failure
  e ← key_of "error" failure
  n ← normal_index e
  some (m, n)

-- `some none` says that it is no error of a module.
unfoldable pub normalize_module_error : Json → Option (Option (Json × Json))
unfolding contains key_of module_indices
normalize_module_error failure = contains "Module" failure >>= λ of_module.
    if of_module
    then (key_of "Module" failure >>= λ m. module_indices m >>= λ i. some (some i))
    else some none

abbrev system_message : String → Json → ErrorMessage
system_message name docs = record { kind = "System"; name = str name; docs = docs }

unfoldable pub token_message : Json → Option (Option ErrorMessage)
unfolding contains key_of
token_message failure = contains "Token" failure >>= λ token.
    if token
    then (key_of "Token" failure >>= λ docs. some (some (system_message "Token" docs)))
    else some none

unfoldable pub build_system_error_message : Json → Option (Option ErrorMessage)
unfolding contains token_message
build_system_error_message failure = do
  bad_origin ← contains "BadOrigin" failure
  lookup ← contains "CannotLookup" failure
  unspecified ← contains "Other" failure
  if bad_origin
      then some (some (system_message "BadOrigin" (str "Bad origin")))
      else if lookup
      then some (some (system_message "CannotLookup" (str "Cannot lookup")))
      else if unspecified
      then some (some (system_message "Other" (str "Unspecified error occurred")))
      else token_message failure
