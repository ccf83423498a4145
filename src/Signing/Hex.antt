-- ===== src/Signing/Hex.antt =====
-- Bytes and their hexadecimal digits, as `bytes.hex` and `bytes.fromhex` have them, which
-- `create_signed_extrinsic` of async_substrate_interface/async_substrate.py uses.
use async_substrate_interfac.Prelude.{
  ℕ, ◌+◌, ◌*◌, ◌-◌, ◌/◌, ◌%◌, String, ◌&&◌, Option, none, some, List, [], ◌∷◌, if◌then◌else◌, ◌==◌,
  leb,
}
use async_substrate_interfac.Storage.TupleType.{Text, is_space}
use Prim.Native.String.{◌++◌ as join}

unfoldable pub hex_digit : ℕ → String
hex_digit d =
    if d == 0
    then "0"
    else if d == 1
    then "1"
    else if d == 2
    then "2"
    else if d == 3
    then "3"
    else if d == 4
    then "4"
    else if d == 5
    then "5"
    else if d == 6
    then "6"
    else if d == 7
    then "7"
    else if d == 8
    then "8"
    else if d == 9
    then "9"
    else if d == 10
    then "a"
    else if d == 11
    then "b"
    else if d == 12
    then "c"
    else if d == 13
    then "d"
    else if d == 14
    then "e"
    else "f"

-- `b.hex()`
unfoldable pub hex : List ℕ → String
unfolding hex_digit
hex [] = ""
hex (b ∷ l) = join (hex_digit (b / 16)) (join (hex_digit (b % 16)) (hex l))

-- A hexadecimal digit by its code point.
unfoldable pub digit_of : ℕ → Option ℕ
digit_of c =
    if leb 48 c && leb c 57
    then some (c - 48)
    else if leb 97 c && leb c 102
    then some (c - 87)
    else if leb 65 c && leb c 70
    then some (c - 55)
    else none

unfoldable pub pair_of : ℕ → ℕ → Option (List ℕ) → Option (List ℕ)
unfolding digit_of
pair_of c d rest = elim (digit_of c) [
  | none ↦ none
  | some h ↦ elim (digit_of d) [
    | none ↦ none
    | some l ↦ elim rest [ none ↦ none | some bs ↦ some ((16 * h + l) ∷ bs) ]
  ]
]

-- `bytes.fromhex`, which skips spaces between bytes; a ValueError is none.
unfoldable pub fromhex : Text → Option (List ℕ)
unfolding is_space pair_of
fromhex [] = some []
fromhex (c ∷ []) = if is_space c then some [] else none
fromhex (c ∷ d ∷ l) =
    let skipped = fromhex (d ∷ l) in
    let rest = fromhex l in if is_space c then skipped else pair_of c d rest
