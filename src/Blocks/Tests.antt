-- ===== src/Blocks/Tests.antt =====
-- A block with an extrinsic that cannot be decoded, and its author.
use mathlib.Core.Option.{map as map_option}
use async_substrate_interfac.Prelude.{
  ℕ, suc, ◌≡◌, refl, String, true, false, none, some, List, [], ◌∷◌, length, map, inl, inr, ◌⊎◌,
  if◌then◌else◌,
}
use async_substrate_interfac.Prelude.Action.{go_on}
use async_substrate_interfac.Blocks.Digest.{Codec, hex_number, number, Slot, raw, decoded, Header}
use async_substrate_interfac.Blocks.Decode.{BlockData, Block, block_number, decode_block}
use async_substrate_interfac.Blocks.Decode.Modes.{slot_of, decode_block-same, decode_block-lenient}
use async_substrate_interfac.Blocks.Retrieve.{Node, retrieve, is_set, is_above_zero, from_number}
use text.Mathlib.Text.{◌==◌ as str_eq}

abbrev decoded_text : String → ℕ ⊎ String
decoded_text s = if str_eq s "bad" then inl 9 else inr s

abbrev codec : Codec
codec = record {
  World = ℕ;
  Error = ℕ;
  Runtime = Unit;
  Extrinsic = String;
  Log = String;
  Account = String;
  value_error = 1;
  index_error = 2;
  zero_division = 3;
  not_implemented = 4;
  decode_extrinsic = λ r s. decoded_text s;
  has_log_class = λ r. true;
  decode_log = λ r s. decoded_text s;
  has_pre_runtime = λ log. true;
  implements_scaleinfo = λ r. true;
  engine = λ log. inr log;
  babe_index = λ r log. inr 7;
  aura_slot = λ r log. inr 8;
  legacy_engine = λ log. inr log;
  legacy_index = λ log. inr 0;
  validators = λ r h w. (suc w, inr ("alice" ∷ "bob" ∷ "carol" ∷ []));
}

abbrev header_with : List (Slot String) → Header codec
header_with l = record {
  hash = none;
  number_of = hex_number (48 ∷ 120 ∷ 49 ∷ 102 ∷ []);
  parent_hash = "0xp";
  logs = l;
}

abbrev good : BlockData codec
good = record { data_header = header_with (raw "aura" ∷ []); texts = some ("a" ∷ []) }

-- The engine BABE names a validator that there is not.
abbrev doubtful : BlockData codec
doubtful = record { data_header = header_with (raw "BABE" ∷ []); texts = some ("bad" ∷ "a" ∷ []) }

abbrev decoded_good : Block codec
decoded_good = record {
  header = record {
    hash = some "0xb";
    number_of = number 31;
    parent_hash = "0xp";
    logs = decoded "aura" ∷ [];
  };
  extrinsics = some (decoded "a" ∷ []);
  author = some "carol";
}

decode_good : decode_block codec tt false true "0xb" (some "0xb") good 0 ≡ (1, inr decoded_good)
unfolding decode_block go_on
decode_good = refl

decode_doubtful : (decode_block codec tt false true "0xb" (some "0xb") doubtful 0).1 ≡ inl 9
unfolding decode_block go_on
decode_doubtful = refl

decode_block-same_example :
    decode_block codec tt true true "0xb" (some "0xb") good 0 ≡ (1, inr decoded_good)
decode_block-same_example =
    decode_block-same codec tt true "0xb" (some "0xb") good 0 1 decoded_good decode_good

doubtful_number : block_number codec doubtful.data_header.number_of ≡ inr (number 31)
unfolding block_number
doubtful_number = refl

decode_block-lenient_example :
    (w' : ℕ) × (x : Block codec) × (decode_block codec tt true true "0xb" (some "0xb") doubtful 0
      ≡ (w', inr x))
    × (x.header.number_of ≡ number 31)
    × (x.extrinsics ≡ map_option (map (λ s. slot_of codec (decoded_text s))) doubtful.texts)
    × (length x.header.logs ≡ length doubtful.data_header.logs)
decode_block-lenient_example =
    decode_block-lenient codec tt true "0xb" (some "0xb") doubtful (number 31) 0 doubtful_number

abbrev node : Node codec
node = record {
  type_error = 5;
  block_not_found = λ e. false;
  init_runtime = λ h w. (w, inr tt);
  get_block_hash = λ n w. (w, inr (some "0xb"));
  get_chain_head = λ w. (w, inr "0xh");
  get_chain_finalised_head = λ w. (w, inr "0xf");
  get_header = λ h r w. (w, inr (some (header_with [])));
  get_block_data = λ h r w. (w, inr (some (some good)));
  unsubscribe = λ id method w. (w, inr tt);
}

-- With the number 0, a hash that is given is passed over.
number_zero :
    retrieve codec node false (some "0xc") (some 0) false false false 0
    ≡ retrieve codec node false (some "0xb") none false false false 0
unfolding retrieve is_set is_above_zero from_number go_on
number_zero = refl
