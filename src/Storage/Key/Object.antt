-- ===== src/Storage/Key/Object.antt =====
-- The objects of class StorageKey of async_substrate_interface/utils/storage.py: how they are created,
-- `generate` on them, `to_hex` and `decode_scale_value`. `params_encoded`, which `generate` alone uses,
-- is left out, and so are the metadata and the codec, which all keys share.
pub mod Hex
use async_substrate_interfac.Prelude.{
  ℕ, Bool, true, false, not, ◌&&◌, Option, none, some, List, [], ◌∷◌, String, if◌then◌else◌,
}
use async_substrate_interfac.Storage.Hasher.{Bytes}
use async_substrate_interfac.Storage.TupleType.{Text}
use async_substrate_interfac.Storage.Key.{
  StorageFunction, Pallet, Param, Result, ok, raised, and_then, pallet_not_found,
  storage_function_not_found, no_function, not_decoded, Codec, hex, generate_in,
}
use text.Mathlib.Text.{◌==◌ as str_eq}
use Prim.Native.String.{◌++◌ as join}

unfoldable pub is_given : Option String → Bool
is_given none = false
is_given (some s) = not (str_eq s "")

-- `get_metadata_pallet` of the metadata; there is no pallet of the name None.
unfoldable pub find_pallet : (String → Option Pallet) → Option String → Result Pallet
find_pallet get_metadata_pallet none = raised pallet_not_found
find_pallet get_metadata_pallet (some p) = elim (get_metadata_pallet p) [
  | none ↦ raised pallet_not_found
  | some pallet ↦ ok pallet
]

-- The storage function with its name.
unfoldable pub find_function : Pallet → Option String → Result (String × StorageFunction)
find_function pallet none = raised storage_function_not_found
find_function pallet (some name) = elim (pallet.get_storage_function name) [
  | none ↦ raised storage_function_not_found
  | some f ↦ ok (name, f)
]

unfoldable pub value_type_in :
    (String → Option Pallet) → Option String → Option String → Result (Option String)
unfolding find_pallet find_function and_then
value_type_in get_metadata_pallet pallet name =
    and_then (find_pallet get_metadata_pallet pallet)
      (λ p. and_then (find_function p name) (λ f. ok (some f.1.value_type)))

-- `if not value_scale_type and pallet and storage_function`
unfoldable pub value_type_or :
    (String → Option Pallet)
    → Option String
    → Option String
    → Option String
    → Result (Option String)
unfolding is_given value_type_in
value_type_or get_metadata_pallet value_scale_type pallet name =
    if not (is_given value_scale_type) && (is_given pallet && is_given name)
    then value_type_in get_metadata_pallet pallet name
    else ok value_scale_type

-- What stands between the brackets of an f-string.
unfoldable pub type_text : Option String → String
type_text none = "None"
type_text (some t) = t

module _ (K : Codec) where
  open K use {V}

  -- `key_data` is the attribute `data`.
  pub record StorageKey : Type 0 where
    pub pallet : Option String
    pub storage_function : Option String
    pub params : Option (List (Param V))
    pub key_data : Option Bytes
    pub value_scale_type : Option String
    pub metadata_storage_function : Option StorageFunction

  -- The names of the pallet and of the storage function are not kept.
  unfoldable pub create_from_data :
      (String → Option Pallet)
      → Bytes
      → Option String
      → Option String
      → Option String
      → Result StorageKey
  unfolding value_type_or and_then
  create_from_data get_metadata_pallet bytes value_scale_type pallet name =
      and_then (value_type_or get_metadata_pallet value_scale_type pallet name) (λ t. ok (record {
        pallet = none;
        storage_function = none;
        params = none;
        key_data = some bytes;
        value_scale_type = t;
        metadata_storage_function = none;
      }))

  -- `if self.params`
  unfoldable pub params_or_none : Option (List (Param V)) → List (Param V)
  params_or_none none = []
  params_or_none (some l) = l

  unfoldable pub generate_with : StorageKey → Pallet → String × StorageFunction → Result StorageKey
  unfolding params_or_none and_then generate_in
  generate_with k pallet (name, f) =
      and_then (generate_in K pallet name f (params_or_none k.params)) (λ d. ok (record k {
        key_data = some d;
        value_scale_type = some f.value_type;
        metadata_storage_function = some f;
      }))

  -- `generate` with what it writes to the object, which is lost where it raises.
  unfoldable pub generate_key : (String → Option Pallet) → StorageKey → Result StorageKey
  unfolding find_pallet find_function generate_with and_then
  generate_key get_metadata_pallet k =
      and_then (find_pallet get_metadata_pallet k.pallet) (λ pallet.
        and_then (find_function pallet k.storage_function) (λ f. generate_with k pallet f))

  unfoldable pub create_from_storage_function :
      (String → Option Pallet) → String → String → List (Param V) → Result StorageKey
  unfolding generate_key
  create_from_storage_function get_metadata_pallet pallet name params =
      generate_key get_metadata_pallet (record {
        pallet = some pallet;
        storage_function = some name;
        params = some params;
        key_data = none;
        value_scale_type = none;
        metadata_storage_function = none;
      })

  -- The text, as code points; `0x` is 48, 120. Without data there is none.
  unfoldable pub to_hex : StorageKey → Option Text
  unfolding hex
  to_hex k = elim k.key_data [
    | none ↦ none
    | some [] ↦ none
    | some (b ∷ l) ↦ some (48 ∷ 120 ∷ hex (b ∷ l))
  ]

  -- The decoder of a type is a parameter; none is an exception of it. The result says whether there
  -- was data.
  module _ {Decoded : Type 0} (decode : Option String → Bytes → Option Decoded) where
    unfoldable pub decode_as : Option String → Bytes → Bool → Result (Decoded × Bool)
    decode_as t bytes result_found = elim (decode t bytes) [
      | none ↦ raised not_decoded
      | some d ↦ ok (d, result_found)
    ]

    unfoldable pub decode_default : StorageKey → StorageFunction → Result (Decoded × Bool)
    unfolding decode_as type_text
    decode_default k f =
        if str_eq f.modifier "Default"
        then decode_as k.value_scale_type f.default_value false
        else decode_as (some (join (join "Option<" (type_text k.value_scale_type)) ">"))
            f.default_value false

    -- A key without a storage function has no `value` to ask for its modifier.
    unfoldable pub decode_scale_value : StorageKey → Option Bytes → Result (Decoded × Bool)
    unfolding decode_as decode_default
    decode_scale_value k (some bytes) = decode_as k.value_scale_type bytes true
    decode_scale_value k none = elim k.metadata_storage_function [
      | none ↦ raised no_function
      | some f ↦ decode_default k f
    ]
