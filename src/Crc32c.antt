-- ===== src/Crc32c.antt =====
-- crc32c.c and crc32c.h: the checksum in software, on the CRC32 instruction of SSE 4.2, and the
-- dispatch between them. A buffer is the list of its bytes; `len` is its length. The build is the
-- x86_64 one. The instruction and its intrinsics are a parameter, `Crc32Unit`.
pub mod Hardware
pub mod Dispatch
pub mod Tests
use cpu_check.Base.{
  ℕ, zero, suc, ◌+◌, ◌-◌, ◌/◌, ◌%◌, ◌^◌, ◌<◌, bit_and, bit_xor, ◌≡◌, List, [], ◌∷◌, arith, ltb,
  ◌==◌, if◌then◌else◌, length, take, drop,
}
use cpu_check.Base.Bits.{bit_xor-lt}
use cpu_check.Base.Bytes.{IsBytes, load_le, le_bytes}

abbrev pub poly : ℕ
poly = 0x82f63b78

-- One turn of the inner loop: `h = h & 1 ? (h >> 1) ^ POLY : h >> 1`.
pub crc_round : ℕ → ℕ
crc_round h = if bit_and h 1 == 1 then bit_xor (h / 2) poly else h / 2

crc_rounds : ℕ → ℕ → ℕ
crc_rounds zero h = h
crc_rounds (suc k) h = crc_rounds k (crc_round h)

-- The body of the outer loop: `h ^= *s++` and the eight turns.
unfoldable pub crc_byte : ℕ → ℕ → ℕ
unfolding crc_rounds crc_round
crc_byte h b = crc_rounds 8 (bit_xor h b)

-- The outer loop.
unfoldable pub crc_bytes : ℕ → List ℕ → ℕ
crc_bytes h [] = h
crc_bytes h (b ∷ s) = crc_bytes (crc_byte h b) s

-- `~h` of a `uint32_t`.
abbrev pub not32 : ℕ → ℕ
not32 h = 2 ^ 32 - 1 - h

unfoldable pub crc32c_sw : List ℕ → ℕ
unfolding crc_bytes crc_byte
crc32c_sw s = not32 (crc_bytes (2 ^ 32 - 1) s)

-- The four intrinsics `_mm_crc32_u8`, `_mm_crc32_u16`, `_mm_crc32_u32`, `_mm_crc32_u64`.
pub record Crc32Unit : Type 0 where
  pub crc32_u8 : ℕ → ℕ → ℕ
  pub crc32_u16 : ℕ → ℕ → ℕ
  pub crc32_u32 : ℕ → ℕ → ℕ
  pub crc32_u64 : ℕ → ℕ → ℕ

-- `while (len > 7)`, with fuel; the result is the register and the bytes that are left.
pub hw_words : Crc32Unit → ℕ → ℕ → List ℕ → ℕ × List ℕ
hw_words u zero hh s = (hh, s)
hw_words u (suc fuel) hh s =
    let rest = hw_words u fuel (u.crc32_u64 hh (load_le (take 8 s))) (drop 8 s) in
    if ltb 7 (length s) then rest else (hh, s)

-- `if (len > n - 1)`, one operand of `n` bytes.
pub hw_tail : (ℕ → ℕ → ℕ) → ℕ → ℕ × List ℕ → ℕ × List ℕ
hw_tail op n (h, s) =
    if ltb (n - 1) (length s) then (op h (load_le (take n s)), drop n s) else (h, s)

-- The fuel of the loop is the length, of which each turn takes eight.
unfoldable pub crc32c_hw : Crc32Unit → List ℕ → ℕ
unfolding hw_words hw_tail
crc32c_hw u s =
    let (hh, s') = hw_words u (length s) (2 ^ 32 - 1) s in
    let r = hw_tail u.crc32_u32 4 (hh % 2 ^ 32, s') in
    not32 (hw_tail u.crc32_u8 1 (hw_tail u.crc32_u16 2 r)).0

-- The register stays a 32-bit word.
crc_round-lt : (h : ℕ) → h < 2 ^ 32 → crc_round h < 2 ^ 32
unfolding crc_round
crc_round-lt h p = ground (arith, bit_xor-lt 32 (h / 2) poly (omega arith) (omega arith))

crc_rounds-lt : (k h : ℕ) → h < 2 ^ 32 → crc_rounds k h < 2 ^ 32
unfolding crc_rounds
crc_rounds-lt zero h p = p
crc_rounds-lt (suc k) h p = crc_rounds-lt k (crc_round h) (crc_round-lt h p)

pub crc_byte-lt : (h b : ℕ) → h < 2 ^ 32 → b < 256 → crc_byte h b < 2 ^ 32
crc_byte-lt h b p q =
    unfold crc_byte in crc_rounds-lt 8 (bit_xor h b) (bit_xor-lt 32 h b p (omega arith))

pub crc_bytes-lt : (h : ℕ) (s : List ℕ) → h < 2 ^ 32 → IsBytes s → crc_bytes h s < 2 ^ 32
unfolding crc_bytes
crc_bytes-lt h [] p q = p
crc_bytes-lt h (b ∷ s) p q = crc_bytes-lt (crc_byte h b) s (crc_byte-lt h b p q.0) q.1
