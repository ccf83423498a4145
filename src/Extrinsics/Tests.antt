-- ===== src/Extrinsics/Tests.antt =====
-- Messages of a subscription to an extrinsic.
use async_substrate_interfac.Prelude.{◌≡◌, refl, true, false, some, List, [], ◌∷◌}
use async_substrate_interfac.Json.{Json, str, dict, Fields, end, field, field_of, key_of}
use async_substrate_interfac.Receipts.Events.{codes}
use async_substrate_interfac.Extrinsics.Submit.{
  to_lower, same_codes, lower_field, override, failure_of, handle_status, handle_result,
  handle_params, result_handler, rejected, in_block, broken, next_message, read_messages, watch,
}
use async_substrate_interfac.Extrinsics.Submit.Watch.{Decided, watch-in_block}

abbrev message : Json → Fields
message result = field "params" (dict (field "result" result end)) end

abbrev subscribed : Fields
subscribed = field "result" (str "id") end

abbrev included_first : List Fields
included_first =
    subscribed
    ∷ message (str "ready")
    ∷ message (dict (field "inBlock" (str "0xa") end))
    ∷ message (dict (field "finalized" (str "0xb") end))
    ∷ []

inclusion : watch true false included_first ≡ in_block (some (str "0xa")) false
unfolding watch read_messages next_message result_handler handle_params handle_result handle_status
    failure_of override lower_field same_codes to_lower codes field_of key_of
inclusion = refl

finalization : watch true true included_first ≡ in_block (some (str "0xb")) true
unfolding watch read_messages next_message result_handler handle_params handle_result handle_status
    failure_of override lower_field same_codes to_lower codes field_of key_of
finalization = refl

invalid : watch true true (subscribed ∷ message (str "invalid") ∷ []) ≡ rejected "invalid"
unfolding watch read_messages next_message result_handler handle_params handle_result handle_status
    failure_of override lower_field same_codes to_lower codes field_of key_of
invalid = refl

-- The node refuses the extrinsic.
refused : watch true true (field "error" (str "1010") end ∷ message (str "ready") ∷ []) ≡ broken
unfolding watch field_of
refused = refl

watch-in_block_example : Decided true true included_first (some (str "0xb")) true
watch-in_block_example =
    watch-in_block true true included_first (some (str "0xb")) true finalization
