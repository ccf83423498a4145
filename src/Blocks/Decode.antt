-- ===== src/Blocks/Decode.antt =====
-- `decode_block` in `_get_block_handler` of AsyncSubstrateInterface
-- (async_substrate_interface/async_substrate.py). What it makes of the digest is in Digest.
pub mod Modes
use async_substrate_interfac.Prelude.{
  ℕ, ◌+◌, ◌*◌, String, Bool, ◌&&◌, Option, none, some, List, [], ◌∷◌, inl, inr, ◌⊎◌, if◌then◌else◌,
  ◌==◌,
}
use async_substrate_interfac.Prelude.Action.{Action, pure, lift, go_on, ◌>>=◌}
use async_substrate_interfac.Storage.TupleType.{Text}
use async_substrate_interfac.Signing.Hex.{digit_of}
use async_substrate_interfac.Blocks.Digest.{
  Codec, Number, hex_number, number, Slot, decoded, undecodable, Header, decode_logs,
}
use text.Mathlib.Text.{◌==◌ as str_eq}

-- `int(text, 16)` of digits, with or without `0x`, which is 48, 120; `0X`, signs, spaces and
-- underscores are left out.
unfoldable pub digits_value : ℕ → Text → Option ℕ
unfolding digit_of
digits_value n [] = some n
digits_value n (c ∷ l) = elim (digit_of c) [ none ↦ none | some d ↦ digits_value (16 * n + d) l ]

unfoldable pub digits_or_none : Text → Option ℕ
unfolding digits_value
digits_or_none [] = none
digits_or_none (c ∷ l) = digits_value 0 (c ∷ l)

unfoldable pub hex_value : Text → Option ℕ
unfolding digits_or_none
hex_value [] = none
hex_value (c ∷ []) = digits_or_none (c ∷ [])
hex_value (c ∷ d ∷ l) =
    if (c == 48) && (d == 120) then digits_or_none l else digits_or_none (c ∷ d ∷ l)

module _ (C : Codec) where
  open C use {World, Error, Runtime, Extrinsic, Log, Account}

  -- The data of a block: a header alone has no key `extrinsics`.
  pub record BlockData : Type 0 where
    pub data_header : Header C
    pub texts : Option (List String)

  pub record Block : Type 0 where
    pub header : Header C
    pub extrinsics : Option (List (Slot Extrinsic))
    pub author : Option Account

  -- What a failure to decode an item leads to.
  unfoldable pub or_undecodable : {A : Type 0} → Bool → Error ⊎ A → Error ⊎ Slot A
  or_undecodable ignore (inr a) = inr (decoded a)
  or_undecodable ignore (inl e) = if ignore then inr undecodable else inl e

  unfoldable pub put_first : {A : Type 0} → Error ⊎ A → Error ⊎ List A → Error ⊎ List A
  put_first (inl e) rest = inl e
  put_first (inr a) (inl e) = inl e
  put_first (inr a) (inr l) = inr (a ∷ l)

  unfoldable pub decode_extrinsics : Runtime → Bool → List String → Error ⊎ List (Slot Extrinsic)
  unfolding or_undecodable put_first
  decode_extrinsics r ignore [] = inr []
  decode_extrinsics r ignore (s ∷ l) =
      put_first (or_undecodable ignore (C.decode_extrinsic r s)) (decode_extrinsics r ignore l)

  unfoldable pub block_number : Number → Error ⊎ Number
  unfolding hex_value
  block_number (number n) = inr (number n)
  block_number (hex_number t) = elim (hex_value t) [
    | none ↦ inl C.value_error
    | some n ↦ inr (number n)
  ]

  unfoldable pub with_hash : Option String → Header C → Header C
  with_hash none h = h
  with_hash (some s) h = if str_eq s "" then h else record h { hash = some s }

  unfoldable pub extrinsics_if :
      Runtime → Bool → Option (List String) → Error ⊎ Option (List (Slot Extrinsic))
  unfolding decode_extrinsics
  extrinsics_if r ignore none = inr none
  extrinsics_if r ignore (some l) = elim (decode_extrinsics r ignore l) [
    | inl e ↦ inl e
    | inr l' ↦ inr (some l')
  ]

  -- `hash` is the hash that is given for the block; `block_hash` is the handler's.
  unfoldable pub decode_block :
      Runtime → Bool → Bool → String → Option String → BlockData → Action World Error Block
  unfolding with_hash block_number extrinsics_if decode_logs
  decode_block r ignore include_author block_hash hash b = do
    let h = b.data_header
    n ← lift (block_number h.number_of)
    extrinsics ← lift (extrinsics_if r ignore b.texts)
    logs ← decode_logs C r ignore include_author block_hash h h.logs none
    pure (record {
      header = record (with_hash hash h) { number_of = n; logs = logs.0 };
      extrinsics = extrinsics;
      author = logs.1;
    })
