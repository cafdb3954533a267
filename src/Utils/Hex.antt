-- ===== src/Utils/Hex.antt =====
-- Hexadecimal text is read back.
use cpu_check.Base.{
  ℕ, zero, suc, ◌+◌, ◌-◌, ◌*◌, ◌/◌, ◌≡◌, ◌<◌, refl, sym, ap, ◌==◌, ◌&&◌, ◌∙◌, Bool, true, List, [],
  ◌∷◌, ltb, if◌then◌else◌, length, get_or, arith, bit_and,
}
use cpu_check.Base.Bits.{bit_and-mask}
use cpu_check.Base.Bytes.{IsBytes}
use cpu_check.Utils.{hex_digits, hex_data}

-- The value of a digit, and of a text of digits.
unfoldable pub digit_value : ℕ → ℕ
digit_value c = if ltb c 58 then c - 48 else c - 87

unfoldable pub unhex : List ℕ → List ℕ
unfolding digit_value
unhex (h ∷ l ∷ rest) = (digit_value h * 16 + digit_value l) ∷ unhex rest
unhex _ = []

-- Every digit from `k` on, `m` of them.
all_read : ℕ → ℕ → Bool
all_read zero k = true
all_read (suc m) k = digit_value (get_or hex_digits k 0) == k && all_read m (k + 1)

all_read-at :
    (m k i : ℕ) → all_read m k ≡ true → i < m → digit_value (get_or hex_digits (k + i) 0) ≡ k + i
unfolding all_read
all_read-at zero k i h lt = absurd (omega arith)
all_read-at (suc m) k zero h lt = let e : k + 0 ≡ k = omega arith in rw e (ground arith)
all_read-at (suc m) k (suc i) h lt =
    let e : k + suc i ≡ k + 1 + i = omega arith in
    rw e (all_read-at m (k + 1) i (ground arith) (omega arith))

sixteen : all_read 16 0 ≡ true
unfolding all_read digit_value
sixteen = refl

digit_value_lem : (n : ℕ) → n < 16 → digit_value (get_or hex_digits n 0) ≡ n
digit_value_lem n h =
    let e : 0 + n ≡ n = omega arith in
    ap (λ k. digit_value (get_or hex_digits k 0)) (sym e) ∙ all_read-at 16 0 n sixteen h ∙ e

-- The hexadecimal text of some bytes has two digits for each, and they are read back from it.
pub unhex-hex_data :
    (bs : List ℕ) → IsBytes bs → (unhex (hex_data bs) ≡ bs) × (length (hex_data bs) ≡ 2 * length bs)
unfolding hex_data unhex
unhex-hex_data [] h = (refl, omega arith)
unhex-hex_data (b ∷ bs) h =
    let rest = unhex-hex_data bs h.1 in
    let high = digit_value_lem (bit_and (b / 16) 0xf) (omega (arith, bit_and-mask 4 (b / 16))) in
    let low = digit_value_lem (bit_and b 0xf) (omega (arith, bit_and-mask 4 b)) in
    (
      rw (high, low, rest.0)
          (ap (λ n. n ∷ bs) (omega (arith, h.0, bit_and-mask 4 (b / 16), bit_and-mask 4 b))),
      omega (arith, rest.1),
    )
