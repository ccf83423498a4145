-- ===== src/Receipts/Tests.antt =====
-- Receipts of small events, and the theorems on them at concrete inputs.
use async_substrate_interfac.Prelude.{
  ℕ, ◌≡◌, refl, true, false, Option, none, some, [], ◌∷◌, ℕ_discrete,
}
use async_substrate_interfac.Json.{Json, null, num, str, dict, end, field, add}
use async_substrate_interfac.Receipts.Events.{
  Event, ErrorMessage, is_event, extract_failure_details, is_extrinsic_success_event,
  is_extrinsic_failure_event, extract_fallback_deposit_fee_amount, extract_total_fee_amount,
}
use async_substrate_interfac.Receipts.{Findings, new_message, process_events}
use async_substrate_interfac.Receipts.Outcome.{verdict, final_message, process_events-verdict}
use async_substrate_interfac.Receipts.Fees.{last_fee, deposits, process_events-last_fee}
use async_substrate_interfac.Receipts.Block.{
  Chain, Receipt, has_hash, nth_of, events_of, with_events, with_events-index,
}

abbrev deposited : Event
deposited = record {
  extrinsic_idx = some 1;
  module_id = "Treasury";
  event_id = "Deposit";
  attributes = dict (field "value" (num 4) end);
}

abbrev failed : Event
failed = record {
  extrinsic_idx = some 1;
  module_id = "System";
  event_id = "ExtrinsicFailed";
  attributes = dict (
      field "dispatch_info" (dict (field "weight" (num 9) end))
        (field "dispatch_error" (str "BadOrigin") end));
}

abbrev unknown : Findings
unknown = record { is_success = none; error_message = none; weight = null; total_fee_amount = null }

abbrev bad_origin : ErrorMessage
bad_origin = record { kind = "System"; name = str "BadOrigin"; docs = str "Bad origin" }

abbrev no_modules : Json → Json → Option ErrorMessage
no_modules m e = none

abbrev after : Findings
after = record {
  is_success = some false;
  error_message = some bad_origin;
  weight = num 9;
  total_fee_amount = num 4;
}

failure_run : process_events no_modules unknown (deposited ∷ failed ∷ []) ≡ some after
unfolding process_events extract_total_fee_amount is_extrinsic_success_event
    is_extrinsic_failure_event extract_failure_details extract_fallback_deposit_fee_amount
    new_message add
failure_run = refl

process_events-verdict_example :
    (after.is_success ≡ verdict no_modules (deposited ∷ failed ∷ []))
    × (after.error_message ≡ final_message no_modules (deposited ∷ failed ∷ []))
process_events-verdict_example =
    process_events-verdict no_modules unknown after (deposited ∷ failed ∷ []) refl refl failure_run

process_events-last_fee_example : num 4 ≡ num (deposits (deposited ∷ failed ∷ []))
unfolding last_fee is_event
process_events-last_fee_example =
    process_events-last_fee no_modules unknown after deposited (failed ∷ []) failure_run

-- Hashes and blocks are numbers, and an extrinsic is its hash.
abbrev small_chain : Chain
small_chain = record {
  Hash = ℕ;
  Extrinsic = ℕ;
  Block = ℕ;
  hash_discrete = ℕ_discrete;
  hash_of = λ x. some x;
  get_block = λ b. some (70 ∷ 71 ∷ []);
  get_events = λ b. some (deposited ∷ failed ∷ []);
  get_block_number = λ b. some (some b);
  get_block_hash = λ n. some (some n);
  resolve_module_error = no_modules;
}

abbrev submitted : Receipt small_chain
submitted = record {
  extrinsic_hash = some 71;
  block_hash = some 3;
  block_number = none;
  extrinsic_idx = none;
  extrinsic = none;
  triggered_events = none;
  found = unknown;
}

abbrev with_both : Receipt small_chain
with_both = record submitted {
  extrinsic_idx = some 1;
  extrinsic = some 71;
  triggered_events = some (deposited ∷ failed ∷ []);
}

with_events-index_example :
    (i : ℕ) × (y : ℕ) × (nth_of (70 ∷ 71 ∷ []) i ≡ some y)
    × (has_hash small_chain (some 71) y ≡ true)
    × (with_both.triggered_events ≡ some (events_of (some i) (deposited ∷ failed ∷ [])))
unfolding with_events ℕ_discrete
with_events-index_example =
    with_events-index small_chain submitted with_both 3 70 (71 ∷ []) (deposited ∷ failed ∷ []) refl
      refl refl refl refl refl
