-- ===== src/Signing/Extrinsic.antt =====
-- `create_signed_extrinsic` and `create_unsigned_extrinsic` of AsyncSubstrateInterface in
-- async_substrate_interface/async_substrate.py.
pub mod Agree
use async_substrate_interfac.Prelude.{
  ℕ, zero, suc, ◌+◌, ◌*◌, ◌-◌, ◌/◌, ◌%◌, String, Bool, true, false, not, ◌&&◌, ◌||◌, Option, none,
  some, List, [], ◌∷◌, ◌++◌, length, inl, inr, ◌⊎◌, if◌then◌else◌, ◌==◌, leb,
}
use async_substrate_interfac.Prelude.Action.{Action, pure, raise, lift, raise_if, ◌>>=◌, ◌>>◌}
use async_substrate_interfac.Json.{Json, null, num, str, dict, Fields, end, field, field_of}
use async_substrate_interfac.Storage.TupleType.{Text, is_space}
use async_substrate_interfac.Signing.Hex.{hex, fromhex}
use async_substrate_interfac.Signing.Payload.{
  Codec, Terms, lacks_block, asset_fields, generate_signature_payload,
}
use Prim.Native.String.{◌++◌ as join}

-- A signature from outside, as a text or as bytes.
pub data Signature : Type 0 where
  text : Text → Signature
  bytes : List ℕ → Signature

-- `crypto_type` and `sign`, which may be a coroutine, are the keypair's.
pub record Keypair (C : Codec) : Type 0 where
  pub ss58_address : String
  pub public_key : List ℕ
  pub crypto_type : ℕ
  pub sign : List ℕ → Action C.World C.Error (List ℕ)

-- A `GenericCall`: its bytes in hexadecimal digits, and its value.
pub record Call : Type 0 where
  pub hex_data : String
  pub value : Fields

-- What is used besides: `version` is the version of extrinsics in the metadata, `has_enum` is
-- whether `ExtrinsicSignature` is an `Enum`.
pub record Client (C : Codec) : Type 1 where
  pub Made : Type 0
  pub type_error : C.Error
  pub not_implemented : C.Error
  pub key_error : C.Error
  pub version : C.Runtime → ℕ
  pub has_enum : C.Runtime → Bool
  pub get_account_nonce : String → Action C.World C.Error (Option ℕ)
  pub get_chain_finalised_head : Action C.World C.Error String
  pub get_block_number : String → Action C.World C.Error ℕ
  pub encode_extrinsic : C.Runtime → Fields → C.Error ⊎ Made

-- `nonce or 0`, for an account without a nonce.
unfoldable pub or_zero : Option ℕ → ℕ
or_zero none = 0
or_zero (some n) = n

-- `0x` is 48, 120.
unfoldable pub without_prefix : Text → Option Text
without_prefix (c ∷ d ∷ l) = if (c == 48) && (d == 120) then some l else none
without_prefix _ = none

-- The signature's version, which a signature of 65 bytes begins with.
unfoldable pub split_version : ℕ → List ℕ → ℕ × List ℕ
split_version crypto_type [] = (crypto_type, [])
split_version crypto_type (v ∷ l) = if length l == 64 then (v, l) else (crypto_type, v ∷ l)

module _ (C : Codec) (K : Client C) where
  open C use {World, Error, Runtime}

  unfoldable pub hex_bytes : Text → Error ⊎ List ℕ
  unfolding fromhex
  hex_bytes s = elim (fromhex s) [ none ↦ inl C.value_error | some b ↦ inr b ]

  -- A text that does not begin with `0x` has no `hex`, so that no extrinsic is made of it.
  unfoldable pub signature_bytes : Signature → Error ⊎ List ℕ
  unfolding without_prefix hex_bytes
  signature_bytes (bytes b) = inr b
  signature_bytes (text s) = elim (without_prefix s) [
    | none ↦ inl C.attribute_error
    | some l ↦ hex_bytes l
  ]

  unfoldable pub given_nonce : Keypair C → Option ℕ → Action World Error ℕ
  unfolding or_zero
  given_nonce k (some n) = pure n
  given_nonce k none = do n ← K.get_account_nonce k.ss58_address; pure (or_zero n)

  -- `era["current"] = n`, where the key is missing.
  unfoldable pub with_current : Json → ℕ → Json
  with_current (dict fs) n = dict (field "current" (num n) fs)
  with_current era n = era

  -- The era, and the dictionary of the caller, which gets the number of the current block.
  unfoldable pub process_era : Option Json → Action World Error Json
  unfolding lacks_block with_current
  process_era none = pure (str "00")
  process_era (some era) =
      if lacks_block C era
      then (do
        head ← K.get_chain_finalised_head
        n ← K.get_block_number head
        pure (with_current era n))
      else pure era

  unfoldable pub make_signature :
      Call → Keypair C → Terms → Option Signature → Runtime → Action World Error (ℕ × List ℕ)
  unfolding signature_bytes split_version
  make_signature call k t (some s) r = do
    b ← lift (signature_bytes s)
    pure (split_version k.crypto_type b)
  make_signature call k t none r = do
    payload ← generate_signature_payload C call.hex_data t false (some r)
    b ← k.sign payload
    pure (k.crypto_type, b)

  -- `call.value[key]`
  unfoldable pub call_item : Call → String → Action World Error Json
  call_item call key =
      lift (elim (field_of key call.value) [ none ↦ inl K.key_error | some v ↦ inr v ])

  unfoldable pub value_fields : Keypair C → Terms → ℕ × List ℕ → Bool → Json → Json → Json → Fields
  unfolding hex asset_fields
  value_fields k t (signature_version, signature) enum call_function call_module call_args =
      let version = if enum then field "signature_version" (num signature_version) end else end in
      field "account_id" (str (join "0x" (hex k.public_key))) (
        field "signature" (str (join "0x" (hex signature))) (
          field "call_function" call_function (
            field "call_module" call_module (
              field "call_args" call_args (
                field "nonce" (num t.nonce) (
                  field "era" t.era (
                    field "tip" (num t.tip) (
                      field "asset_id" (asset_fields t.tip t.tip_asset_id)
                        (field "mode" (str "Disabled") version)))))))))

  unfoldable pub encode_signed :
      Call → Keypair C → Terms → Runtime → ℕ × List ℕ → Action World Error K.Made
  unfolding call_item value_fields
  encode_signed call k t r signature = do
    call_function ← call_item call "call_function"
    call_module ← call_item call "call_module"
    call_args ← call_item call "call_args"
    lift (
        K.encode_extrinsic r
          (value_fields k t signature (K.has_enum r) call_function call_module call_args))

  -- An argument that is not a GenericCall is none.
  unfoldable pub call_or_raise : Option Call → Action World Error Call
  call_or_raise none = raise K.type_error
  call_or_raise (some call) = pure call

  -- An era that is None is none; a `nonce` that is None is none.
  unfoldable pub create_signed_extrinsic :
      Option Call
      → Keypair C
      → Option Json
      → Option ℕ
      → ℕ
      → Option ℕ
      → Option Signature
      → Action World Error K.Made
  unfolding call_or_raise given_nonce process_era make_signature encode_signed
  create_signed_extrinsic argument k era nonce tip tip_asset_id signature = do
    r ← C.init_runtime
    call ← call_or_raise argument
    raise_if (not (K.version r == 4)) K.not_implemented
    n ← given_nonce k nonce
    era' ← process_era era
    signed ←
        make_signature call k
          (record { era = era'; nonce = n; tip = tip; tip_asset_id = tip_asset_id }) signature r
    encode_signed call k (record { era = era'; nonce = n; tip = tip; tip_asset_id = tip_asset_id })
        r signed

  unfoldable pub create_unsigned_extrinsic : Call → Action World Error K.Made
  unfolding call_item
  create_unsigned_extrinsic call = do
    r ← C.init_runtime
    call_function ← call_item call "call_function"
    call_module ← call_item call "call_module"
    call_args ← call_item call "call_args"
    lift (
        K.encode_extrinsic r (
          field "call_function" call_function
            (field "call_module" call_module (field "call_args" call_args end))))
