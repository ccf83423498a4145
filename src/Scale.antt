-- ===== src/Scale.antt =====
-- `_encode_scale` and `_encode_account_id` of SubstrateMixin in
-- async_substrate_interface/types.py.
pub mod Accounts
mod Tests
use async_substrate_interfac.Prelude.{
  ℕ, zero, suc, ◌+◌, ◌*◌, ◌/◌, ◌%◌, String, Bool, true, false, Option, none, some, List, [], ◌∷◌,
  ◌++◌, length, inl, inr, ◌⊎◌, if◌then◌else◌, ltb,
}
use async_substrate_interfac.Prelude.Dict.{lookup}
use async_substrate_interfac.Prelude.Strings.{String-discrete}
use async_substrate_interfac.Registry.{TypeMap, decimal}
use Prim.Native.String.{◌++◌ as join}
use text.Mathlib.Text.{◌==◌ as str_eq}

abbrev pub Bytes : Type 0
Bytes = List ℕ

-- A value within a list or alone: `Other` is any value of Python that is no number; negative
-- numbers are left out.
pub data Item (Other : Type 0) : Type 0 where
  raw : Bytes → Item Other
  string : String → Item Other
  integer : ℕ → Item Other
  other : Other → Item Other

-- A value to encode: `sequence` is a list or a tuple, `scale_type` a ScaleType with its data, which
-- may be None, and its value.
pub data ScaleValue (Other : Type 0) : Type 0 where
  null : ScaleValue Other
  single : Item Other → ScaleValue Other
  sequence : List (Item Other) → ScaleValue Other
  scale_type : Option Bytes → ScaleValue Other → ScaleValue Other

-- `ss58_decode` with SS58_FORMAT, as bytes, and the encoder of bt_decode for a runtime's registry;
-- the errors are those of `to_bytes` and of what is no account.
pub record Codec : Type 1 where
  pub Other : Type 0
  pub Error : Type 0
  pub Registry : Type 0
  pub value_error : Error
  pub overflow_error : Error
  pub attribute_error : Error
  pub no_account : Error
  pub ss58_decode : String → Error ⊎ Bytes
  pub encode_by_type_string : String → Registry → ScaleValue Other → Error ⊎ Bytes

pub record Runtime (C : Codec) : Type 0 where
  pub registry_type_map : TypeMap
  pub registry : C.Registry

module _ (C : Codec) where
  open C use {Other, Error}

  unfoldable pub type_id : TypeMap → String → ℕ → ℕ
  unfolding lookup
  type_id ids name default = elim (lookup String-discrete name ids) [ none ↦ default | some i ↦ i ]

  unfoldable pub scale_info : ℕ → String
  unfolding decimal
  scale_info i = join "scale_info::" (decimal i)

  unfoldable pub encode_account_id : Item Other → Error ⊎ Bytes
  encode_account_id (raw b) = inr b
  encode_account_id (string s) = C.ss58_decode s
  encode_account_id _ = inl C.no_account

  unfoldable pub encode_account : ScaleValue Other → Error ⊎ Bytes
  unfolding encode_account_id
  encode_account (single i) = encode_account_id i
  encode_account _ = inl C.no_account

  unfoldable pub append_to : Error ⊎ Bytes → Error ⊎ Bytes → Error ⊎ Bytes
  append_to (inl e) rest = inl e
  append_to (inr b) (inl e) = inl e
  append_to (inr b) (inr l) = inr (b ++ l)

  unfoldable pub encode_accounts : List (Item Other) → Error ⊎ Bytes
  unfolding encode_account_id append_to
  encode_accounts [] = inr []
  encode_accounts (a ∷ l) = append_to (encode_account_id a) (encode_accounts l)

  -- `u16_value.to_bytes(2, "little")`
  unfoldable pub u16_bytes : Item Other → Error ⊎ Bytes
  u16_bytes (integer n) = if ltb n 65536 then inr (n % 256 ∷ n / 256 ∷ []) else inl C.overflow_error
  u16_bytes _ = inl C.attribute_error

  unfoldable pub encode_pair : ScaleValue Other → Error ⊎ Bytes
  unfolding encode_account_id append_to u16_bytes
  encode_pair (sequence (a ∷ n ∷ [])) =
      append_to (inr (1 ∷ [])) (append_to (encode_account_id a) (u16_bytes n))
  encode_pair _ = inl C.value_error

  -- The length shifted by two bits, in one byte.
  unfoldable pub encode_items : List (Item Other) → Error ⊎ Bytes
  unfolding append_to encode_accounts
  encode_items l =
      if ltb (length l) 64
      then append_to (inr (4 * length l ∷ [])) (encode_accounts l)
      else inl C.value_error

  -- A value that is no list stands for a list of itself; a ScaleType is no account.
  unfoldable pub encode_vec : ScaleValue Other → Error ⊎ Bytes
  unfolding encode_items
  encode_vec (sequence l) = encode_items l
  encode_vec (single i) = encode_items (i ∷ [])
  encode_vec _ = inl C.no_account

  unfoldable pub encode_other : String → C.Registry → ScaleValue Other → Error ⊎ Bytes
  encode_other t r (scale_type (some b) v) = inr b
  encode_other t r (scale_type none v) = C.encode_by_type_string t r v
  encode_other t r v = C.encode_by_type_string t r v

  unfoldable pub encode_typed : String → ScaleValue Other → Runtime C → Error ⊎ Bytes
  unfolding type_id scale_info encode_account encode_pair encode_vec encode_other
  encode_typed t v r =
      if str_eq t "scale_info::0"
      then encode_account v
      else if str_eq t (scale_info (type_id r.registry_type_map "Option<(AccountId32, u16)>" 579))
      then encode_pair v
      else if str_eq t (scale_info (type_id r.registry_type_map "Vec<AccountId32>" 152))
      then encode_vec v
      else encode_other t r.registry v

  unfoldable pub encode_scale : String → ScaleValue Other → Runtime C → Error ⊎ Bytes
  unfolding encode_typed
  encode_scale t null r = inr (0 ∷ [])
  encode_scale t (single i) r = encode_typed t (single i) r
  encode_scale t (sequence l) r = encode_typed t (sequence l) r
  encode_scale t (scale_type b v) r = encode_typed t (scale_type b v) r
