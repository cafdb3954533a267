-- ===== src/Utils.antt =====
-- utils.cc: hexadecimal text, as the codes of its characters.
pub mod Hex
pub mod Json
mod Tests
use cpu_check.Base.{ℕ, ◌+◌, ◌/◌, bit_and, List, [], ◌∷◌, get_or}

abbrev pub hex_digits : List ℕ
hex_digits = 48 ∷ 49 ∷ 50 ∷ 51 ∷ 52 ∷ 53 ∷ 54 ∷ 55 ∷ 56 ∷ 57 ∷ 97 ∷ 98 ∷ 99 ∷ 100 ∷ 101 ∷ 102 ∷ []

-- `HexData` and `HexStr`: each byte `b` becomes `d[(b >> 4) & 0xf]` and `d[b & 0xf]`.
unfoldable pub hex_data : List ℕ → List ℕ
hex_data [] = []
hex_data (b ∷ s) =
    get_or hex_digits (bit_and (b / 16) 0xf) 0 ∷ get_or hex_digits (bit_and b 0xf) 0 ∷ hex_data s
