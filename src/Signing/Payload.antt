-- ===== src/Signing/Payload.antt =====
-- `generate_signature_payload` of AsyncSubstrateInterface in
-- async_substrate_interface/async_substrate.py.
pub mod Signed
use async_substrate_interfac.Prelude.{
  ℕ, zero, suc, ◌+◌, ◌≤◌, ◌<◌, ◌≡◌, refl, ap, ◌∙◌, sym, String, Bool, true, false, not, ◌&&◌, ◌||◌,
  Option, none, some, List, [], ◌∷◌, ◌++◌, length, arith, Bool-cases, Option-cases, inl, inr, ◌⊎◌,
  ◌≢◌, if◌then◌else◌, ite, sum_cases, ltb, is_some, All, ◌==◌, map,
}
use async_substrate_interfac.Prelude.Dict.{lookup, keys}
use async_substrate_interfac.Prelude.Distinct.{Distinct}
use async_substrate_interfac.Prelude.Strings.{String-discrete}
use async_substrate_interfac.Prelude.Action.{
  Action, pure, raise, lift, raise_if, ◌>>=◌, ◌>>◌, go_on, go_on-inr,
}
use async_substrate_interfac.Json.{
  Json, null, num, str, tuple, dict, Items, nil, Fields, end, field, field_of,
}
use text.Mathlib.Text.{◌==◌ as str_eq}

-- A signed extension: the types of its parts in the extrinsic and in the additional signed data.
pub record Extension : Type 0 where
  pub extrinsic : String
  pub additional_signed : String

abbrev pub Extensions : Type 0
Extensions = List (String × Extension)

abbrev pub TypeMapping : Type 0
TypeMapping = List (String × String)

-- What the signing of an extrinsic uses: the calls of the substrate, the runtime's codecs, which
-- are scalecodec's, and blake2b with a digest of 32 bytes. `default_mapping` is the type mapping of
-- a new `ExtrinsicPayloadValue`; `extensions` is none where the metadata
-- has no key `signed_extensions`; `birth` is given the entry `current` of the era.
pub record Codec : Type 1 where
  pub World : Type 0
  pub Error : Type 0
  pub Runtime : Type 0
  pub Era : Type 0
  pub value_error : Error
  pub attribute_error : Error
  pub get_block_hash : ℕ → Action World Error String
  pub init_runtime : Action World Error Runtime
  pub encode_era : Runtime → Json → Error ⊎ Era
  pub birth : Era → Option Json → Error ⊎ ℕ
  pub default_mapping : Runtime → TypeMapping
  pub extensions : Runtime → Option Extensions
  pub encode_bytes : Runtime → String → Error ⊎ String
  pub encode_payload : Runtime → TypeMapping → Fields → Error ⊎ List ℕ
  pub blake2b : List ℕ → List ℕ
  pub runtime_version : Runtime → Json
  pub transaction_version : Runtime → Json

unfoldable pub is_falsy : Json → Bool
is_falsy null = true
is_falsy (num n) = n == 0
is_falsy (str s) = str_eq s ""
is_falsy (tuple nil) = true
is_falsy (dict end) = true
is_falsy _ = false

unfoldable pub is_immortal : Json → Bool
is_immortal (str s) = str_eq s "00"
is_immortal _ = false

-- `if not era: era = "00"`
unfoldable pub given_era : Json → Json
unfolding is_falsy
given_era era = if is_falsy era then str "00" else era

-- `if key in signed_extensions: type_mapping.append([name, signed_extensions[key][part]])`
unfoldable pub append_part :
    Extensions → String → String → (Extension → String) → TypeMapping → TypeMapping
append_part exts key name part mapping = elim (lookup String-discrete key exts) [
  | none ↦ mapping
  | some e ↦ mapping ++ (name, part e) ∷ []
]

unfoldable pub append_extrinsic : Extensions → TypeMapping → TypeMapping
unfolding append_part
append_extrinsic exts mapping =
    let era = append_part exts "CheckMortality" "era" (λ e. e.extrinsic) mapping in
    let era = append_part exts "CheckEra" "era" (λ e. e.extrinsic) era in
    let nonce = append_part exts "CheckNonce" "nonce" (λ e. e.extrinsic) era in
    let tip = append_part exts "ChargeTransactionPayment" "tip" (λ e. e.extrinsic) nonce in
    let asset = append_part exts "ChargeAssetTxPayment" "asset_id" (λ e. e.extrinsic) tip in
    append_part exts "CheckMetadataHash" "mode" (λ e. e.extrinsic) asset

unfoldable pub append_additional : Extensions → TypeMapping → TypeMapping
unfolding append_part
append_additional exts mapping =
    let spec =
      append_part exts "CheckSpecVersion" "spec_version" (λ e. e.additional_signed) mapping in
    let tx =
      append_part exts "CheckTxVersion" "transaction_version" (λ e. e.additional_signed) spec in
    let genesis = append_part exts "CheckGenesis" "genesis_hash" (λ e. e.additional_signed) tx in
    let block = append_part exts "CheckMortality" "block_hash" (λ e. e.additional_signed) genesis in
    let block = append_part exts "CheckEra" "block_hash" (λ e. e.additional_signed) block in
    append_part exts "CheckMetadataHash" "metadata_hash" (λ e. e.additional_signed) block

unfoldable pub type_mapping : TypeMapping → Option Extensions → TypeMapping
unfolding append_extrinsic append_additional
type_mapping default none = default
type_mapping default (some exts) =
    append_additional exts (append_extrinsic exts (("call", "CallBytes") ∷ []))

unfoldable pub id_or_null : Option ℕ → Json
id_or_null none = null
id_or_null (some n) = num n

unfoldable pub asset_fields : ℕ → Option ℕ → Json
unfolding id_or_null
asset_fields tip tip_asset_id =
    dict (field "tip" (num tip) (field "asset_id" (id_or_null tip_asset_id) end))

-- What is signed besides the call: `era`, `nonce`, `tip` and `tip_asset_id`.
pub record Terms : Type 0 where
  pub era : Json
  pub nonce : ℕ
  pub tip : ℕ
  pub tip_asset_id : Option ℕ

module _ (C : Codec) where
  open C use {World, Error, Runtime}

  unfoldable pub payload_dict : Runtime → String → Terms → String → String → Fields
  unfolding asset_fields
  payload_dict r call_data t genesis_hash block_hash = field "call" (str call_data) (
      field "era" t.era (
        field "nonce" (num t.nonce) (
          field "tip" (num t.tip) (
            field "spec_version" (C.runtime_version r) (
              field "genesis_hash" (str genesis_hash) (
                field "block_hash" (str block_hash) (
                  field "transaction_version" (C.transaction_version r) (
                    field "asset_id" (asset_fields t.tip t.tip_asset_id)
                      (field "metadata_hash" null (field "mode" (str "Disabled") end))))))))))

  -- `era_obj.birth(era.get("current"))`; a text has no `get`.
  unfoldable pub birth_of : C.Era → Json → Error ⊎ ℕ
  birth_of era_obj (dict fs) = C.birth era_obj (field_of "current" fs)
  birth_of era_obj _ = inl C.attribute_error

  -- A dictionary with neither `current` nor `phase`.
  unfoldable pub lacks_block : Json → Bool
  lacks_block (dict fs) =
      not (is_some (field_of "current" fs)) && not (is_some (field_of "phase" fs))
  lacks_block _ = false

  unfoldable pub mortal_hash : Runtime → Json → Action World Error String
  unfolding lacks_block birth_of
  mortal_hash r era = do
    raise_if (lacks_block era) C.value_error
    era_obj ← lift (C.encode_era r era)
    number ← lift (birth_of era_obj era)
    C.get_block_hash number

  unfoldable pub block_hash_for : Runtime → String → Json → Action World Error String
  unfolding is_immortal mortal_hash
  block_hash_for r genesis_hash era =
      if is_immortal era then pure genesis_hash else mortal_hash r era

  unfoldable pub given_runtime : Option Runtime → Action World Error Runtime
  given_runtime none = C.init_runtime
  given_runtime (some r) = pure r

  unfoldable pub call_text : Runtime → Bool → String → Error ⊎ String
  call_text r include_call_length call =
      if include_call_length then C.encode_bytes r call else inr call

  -- A payload of more than 256 bytes is hashed.
  unfoldable pub shorten : List ℕ → List ℕ
  shorten payload = if ltb 256 (length payload) then C.blake2b payload else payload

  unfoldable pub encode_terms : Runtime → String → Terms → String → String → Error ⊎ List ℕ
  unfolding payload_dict type_mapping
  encode_terms r call_data t genesis_hash block_hash =
      C.encode_payload r (type_mapping (C.default_mapping r) (C.extensions r))
        (payload_dict r call_data t genesis_hash block_hash)

  unfoldable pub generate_signature_payload :
      String → Terms → Bool → Option Runtime → Action World Error (List ℕ)
  unfolding given_runtime given_era block_hash_for call_text encode_terms shorten
  generate_signature_payload call t include_call_length runtime = do
    genesis_hash ← C.get_block_hash 0
    r ← given_runtime runtime
    block_hash ← block_hash_for r genesis_hash (given_era t.era)
    call_data ← lift (call_text r include_call_length call)
    payload ←
        lift (encode_terms r call_data (record t { era = given_era t.era }) genesis_hash block_hash)
    pure (shorten payload)
