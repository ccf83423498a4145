-- ===== src/Receipts.antt =====
-- Receipts of extrinsics: class AsyncExtrinsicReceipt of
-- async_substrate_interface/async_substrate.py, over the events of Events. What the receipt asks of
-- its substrate is a parameter, and an exception is `none`.
pub mod Events
pub mod Outcome
pub mod Fees
pub mod Block
mod Tests
use async_substrate_interfac.Prelude.{
  ℕ, ◌+◌, Bool, true, false, not, ◌&&◌, Option, none, some, List, [], ◌∷◌, String, if◌then◌else◌,
  leb, ◌==◌, is_some, length,
}
use async_substrate_interfac.Json.{Json, null, num, ◌>>=◌, add}
use async_substrate_interfac.Receipts.Events.{
  Event, ErrorMessage, FailureDetails, extract_total_fee_amount, is_extrinsic_success_event,
  is_extrinsic_failure_event, extract_success_weight, extract_failure_details,
  normalize_module_error, build_system_error_message, extract_fallback_deposit_fee_amount,
}

-- What the receipt has found out; `null` is None.
pub record Findings : Type 0 where
  pub is_success : Option Bool
  pub error_message : Option ErrorMessage
  pub weight : Json
  pub total_fee_amount : Json

-- The local variables of the loop, with the findings.
pub record Progress : Type 0 where
  pub possible_success : Bool
  pub found : Findings

unfoldable pub succeed : Progress → Json → Progress
succeed p spent = record p { possible_success = true; found = record p.found { weight = spent } }

unfoldable pub fail : Progress → FailureDetails → Option (Option ErrorMessage) → Progress
fail p details message = record p {
  possible_success = false;
  found = record p.found {
    is_success = some false;
    weight = if details.has_weight then details.weight else p.found.weight;
    error_message = elim message [ none ↦ p.found.error_message | some m ↦ m ];
  };
}

unfoldable pub charge : Progress → Json → Progress
charge p fee = record p { found = record p.found { total_fee_amount = fee } }

-- After the loop: success is noted only if no message is left.
unfoldable pub conclude : Progress → Findings
conclude p =
    if p.possible_success && not (is_some p.found.error_message)
    then record p.found { is_success = some true }
    else p.found

module _ (resolve_module_error_message : Json → Json → Option ErrorMessage) where
  -- The end of the branch for a failure.
  unfoldable pub failure_message : Json → Option (Option ErrorMessage)
  unfolding normalize_module_error build_system_error_message
  failure_message null = some none
  failure_message failure = normalize_module_error failure >>= λ indices. elim indices [
    | none ↦ build_system_error_message failure
    | some (m, e) ↦ (resolve_module_error_message m e >>= λ message. some (some message))
  ]

  -- The message of a failure: `some none` says that it leaves the message as it was.
  unfoldable pub new_message : FailureDetails → Option (Option (Option ErrorMessage))
  unfolding failure_message
  new_message details = elim details.error_message [
    | some message ↦ some (some (some message))
    | none ↦ elim details.dispatch_error [
      | null ↦ some none
      | failure ↦ (failure_message failure >>= λ message. some (some message))
    ]
  ]

  -- One round of the loop; `paid` is has_transaction_fee_paid_event.
  unfoldable pub event_step : Bool → Event → Progress → Option Progress
  unfolding succeed fail charge
  event_step paid e p =
      if is_extrinsic_success_event e
      then (extract_success_weight e >>= λ spent. some (succeed p spent))
      else if is_extrinsic_failure_event e
      then (extract_failure_details e >>= λ details.
          new_message details >>= λ message. some (fail p details message))
      else if paid
      then some p
      else (extract_fallback_deposit_fee_amount e >>= λ amount.
          add p.found.total_fee_amount amount >>= λ fee. some (charge p fee))

  unfoldable pub event_loop : Bool → List Event → Progress → Option Progress
  unfolding event_step
  event_loop paid [] p = some p
  event_loop paid (e ∷ l) p = event_step paid e p >>= λ q. event_loop paid l q

  unfoldable pub process_events : Findings → List Event → Option Findings
  unfolding event_loop conclude
  process_events r [] = some r
  process_events r (e ∷ l) = extract_total_fee_amount (e ∷ l) >>= λ (fee, paid).
      event_loop paid (e ∷ l)
        (record { possible_success = false; found = record r { total_fee_amount = fee } })
      >>= λ p. some (conclude p)
