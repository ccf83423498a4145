-- ===== src/Signing/Tests.antt =====
-- Nonces, payloads and extrinsics at a node whose chain has given out seven nonces.
use async_substrate_interfac.Prelude.{
  ℕ, zero, suc, ◌≤◌, ◌≡◌, refl, String, Bool, true, false, Option, none, some, List, [], ◌∷◌,
  length, inl, inr, ◌⊎◌, All, is_some,
}
use async_substrate_interfac.Prelude.Dict.{lookup, put}
use async_substrate_interfac.Prelude.Strings.{String-discrete}
use async_substrate_interfac.Prelude.Action.{go_on}
use async_substrate_interfac.Json.{null, num, str, dict, Fields, end, field, field_of}
use async_substrate_interfac.Signing.Nonces as Nonces
use async_substrate_interfac.Signing.Nonces.{Node, answers}
use async_substrate_interfac.Signing.Nonces.Counting.{Follows, get_account_next_index-Follows}
use async_substrate_interfac.Signing.Payload.{
  Codec, Extension, Extensions, Terms, type_mapping, payload_dict, generate_signature_payload,
}
use async_substrate_interfac.Signing.Payload.Signed.{
  type_mapping-payload_dict, generate_signature_payload-bound,
}
use async_substrate_interfac.Signing.Extrinsic.{
  Call, Client, Keypair, text, create_signed_extrinsic, process_era, signature_bytes,
}
use async_substrate_interfac.Signing.Extrinsic.Agree.{IsSigned, create_signed_extrinsic-IsSigned}

abbrev node : Node
node = record {
  World = ℕ;
  Error = ℕ;
  rpc_methods = λ w. (w, inr (some (some ("account_nextIndex" ∷ []))));
  account_next_index = λ w a. (w, inr w);
}

abbrev fresh_client : Nonces.Client node
fresh_client = record { world = 7; nonces = []; methods = none }

abbrev some_calls : List (String × Bool)
some_calls = ("alice", true) ∷ ("bob", true) ∷ ("alice", false) ∷ ("alice", true) ∷ []

answers_alice : answers node "alice" some_calls fresh_client ≡ 7 ∷ 8 ∷ []
unfolding answers lookup put String-discrete async_substrate_interfac.Prelude.Bool-cases
answers_alice = refl

get_account_next_index-Follows_example :
    Follows node none (answers node "alice" some_calls fresh_client)
unfolding lookup
get_account_next_index-Follows_example =
    get_account_next_index-Follows node "alice" some_calls fresh_client

abbrev extension : Extension
extension = record { extrinsic = "a"; additional_signed = "b" }

abbrev bytes_of : ℕ → List ℕ
bytes_of zero = []
bytes_of (suc n) = 0 ∷ bytes_of n

abbrev some_extensions : Extensions
some_extensions = ("CheckMortality", extension) ∷ ("CheckNonce", extension) ∷ []

abbrev codec : Codec
codec = record {
  World = Unit;
  Error = ℕ;
  Runtime = Unit;
  Era = Unit;
  value_error = 1;
  attribute_error = 2;
  get_block_hash = λ n w. (w, inr "0xa");
  init_runtime = λ w. (w, inr tt);
  encode_era = λ r era. inr tt;
  birth = λ e o. inr 5;
  default_mapping = λ r. [];
  extensions = λ r. some some_extensions;
  encode_bytes = λ r s. inr s;
  encode_payload = λ r m fs. inr (bytes_of 300);
  blake2b = λ l. bytes_of 32;
  runtime_version = λ r. num 1;
  transaction_version = λ r. num 1;
}

abbrev some_terms : Terms
some_terms = record { era = str "00"; nonce = 1; tip = 0; tip_asset_id = none }

mapping_in_order :
    type_mapping [] (some some_extensions)
    ≡ ("call", "CallBytes") ∷ ("era", "a") ∷ ("nonce", "a") ∷ ("block_hash", "b") ∷ []
unfolding type_mapping lookup String-discrete async_substrate_interfac.Prelude.Bool-cases
mapping_in_order = refl

type_mapping-payload_dict_example :
    All
      (λ e. is_some (field_of e.0 (payload_dict codec tt "0x" some_terms "0xa" "0xa")) ≡ true)
      (type_mapping [] (some some_extensions))
type_mapping-payload_dict_example =
    type_mapping-payload_dict codec tt "0x" some_terms "0xa" "0xa" [] some_extensions

long_payload :
    (generate_signature_payload codec "0x" some_terms false none tt).1 ≡ inr (bytes_of 32)
unfolding generate_signature_payload go_on
long_payload = refl

generate_signature_payload-bound_example : length (bytes_of 32) ≤ 256
generate_signature_payload-bound_example =
    generate_signature_payload-bound codec "0x" some_terms false none tt (bytes_of 32) (λ l. refl)
      long_payload

abbrev client : Client codec
client = record {
  Made = Fields;
  type_error = 3;
  not_implemented = 4;
  key_error = 5;
  version = λ r. 4;
  has_enum = λ r. true;
  get_account_nonce = λ a w. (w, inr (some 6));
  get_chain_finalised_head = λ w. (w, inr "0xb");
  get_block_number = λ h w. (w, inr 9);
  encode_extrinsic = λ r fs. inr fs;
}

abbrev keypair : Keypair codec
keypair = record {
  ss58_address = "alice";
  public_key = 171 ∷ [];
  crypto_type = 1;
  sign = λ l w. (w, inr (205 ∷ []));
}

abbrev some_call : Call
some_call = record {
  hex_data = "0x";
  value =
      field "call_function" (str "transfer")
        (field "call_module" (str "Balances") (field "call_args" null end));
}

abbrev made : Fields
made = field "account_id" (str "0xab") (
    field "signature" (str "0xcd") (
      field "call_function" (str "transfer") (
        field "call_module" (str "Balances") (
          field "call_args" null (
            field "nonce" (num 6) (
              field "era" (str "00") (
                field "tip" (num 0) (
                  field "asset_id" (dict (field "tip" (num 0) (field "asset_id" null end)))
                    (field "mode" (str "Disabled") (field "signature_version" (num 1) end))))))))))

create_some :
    (create_signed_extrinsic codec client (some some_call) keypair none none 0 none none tt).1
    ≡ inr made
unfolding create_signed_extrinsic go_on generate_signature_payload field_of
create_some = refl

create_signed_extrinsic-IsSigned_example : IsSigned codec client some_call keypair made
create_signed_extrinsic-IsSigned_example =
    create_signed_extrinsic-IsSigned codec client some_call keypair none none 0 none tt made
      create_some

-- An era without the number of a block gets the current one.
era_completed :
    (process_era codec client (some (dict (field "period" (num 64) end))) tt).1
    ≡ inr (dict (field "current" (num 9) (field "period" (num 64) end)))
unfolding process_era field_of go_on
era_completed = refl

-- `0xAb 01`, with a space.
hex_text :
    signature_bytes codec client (text (48 ∷ 120 ∷ 65 ∷ 98 ∷ 32 ∷ 48 ∷ 49 ∷ []))
    ≡ inr (171 ∷ 1 ∷ [])
unfolding signature_bytes
hex_text = refl
