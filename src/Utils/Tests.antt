-- ===== src/Utils/Tests.antt =====
-- Tests of utils.cc, and its theorem at a concrete input.
use cpu_check.Base.{◌*◌, ◌≡◌, refl, [], ◌∷◌, length, arith}
use cpu_check.Utils.{hex_data}
use cpu_check.Utils.Hex.{unhex, unhex-hex_data}

three_bytes : hex_data (0 ∷ 175 ∷ 255 ∷ []) ≡ 48 ∷ 48 ∷ 97 ∷ 102 ∷ 102 ∷ 102 ∷ []
unfolding hex_data
three_bytes = refl

unhex-hex_data_example :
    (unhex (hex_data (0 ∷ 175 ∷ 255 ∷ [])) ≡ 0 ∷ 175 ∷ 255 ∷ [])
    × (length (hex_data (0 ∷ 175 ∷ 255 ∷ [])) ≡ 2 * 3)
unhex-hex_data_example =
    unhex-hex_data (0 ∷ 175 ∷ 255 ∷ []) (omega arith, (omega arith, (omega arith, tt)))
