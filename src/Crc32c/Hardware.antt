-- ===== src/Crc32c/Hardware.antt =====
-- The instruction's documented behaviour, and the equivalence of the two routines.
use cpu_check.Base.{
  ℕ, zero, suc, ◌+◌, ◌-◌, ◌%◌, ◌^◌, ◌≤◌, ◌<◌, ◌≡◌, refl, sym, ap, ◌∙◌, List, [], ◌∷◌, ◌++◌, arith,
  ltb, length, take, drop, take-append-drop, length-take, length-drop, Bool-cases, inl, inr,
}
use cpu_check.Base.Bytes.{
  IsBytes, load_le, le_bytes, le_bytes-load_le, load_le-lt, take-IsBytes, drop-IsBytes,
}
use cpu_check.Crc32c.{
  Crc32Unit, crc_byte, crc_bytes, crc32c_sw, crc32c_hw, hw_words, hw_tail, crc_bytes-lt, not32,
}

-- CRC32 r32, r/m8 adds one byte to the register; a wider operand adds its bytes, the lowest first.
pub record IsFaultless (u : Crc32Unit) : Type 0 where
  pub adds_u8 : (h b : ℕ) → h < 2 ^ 32 → b < 256 → u.crc32_u8 h b ≡ crc_byte h b
  pub adds_u16 : (h v : ℕ) → h < 2 ^ 32 → v < 2 ^ 16 → u.crc32_u16 h v ≡ crc_bytes h (le_bytes 2 v)
  pub adds_u32 : (h v : ℕ) → h < 2 ^ 32 → v < 2 ^ 32 → u.crc32_u32 h v ≡ crc_bytes h (le_bytes 4 v)
  pub adds_u64 : (h v : ℕ) → h < 2 ^ 32 → v < 2 ^ 64 → u.crc32_u64 h v ≡ crc_bytes h (le_bytes 8 v)

crc_bytes-append : (h : ℕ) (s t : List ℕ) → crc_bytes h (s ++ t) ≡ crc_bytes (crc_bytes h s) t
unfolding crc_bytes
crc_bytes-append h [] t = refl
crc_bytes-append h (b ∷ s) t = crc_bytes-append (crc_byte h b) s t

crc_bytes-split :
    (h n : ℕ) (s : List ℕ) → crc_bytes (crc_bytes h (take n s)) (drop n s) ≡ crc_bytes h s
crc_bytes-split h n s =
    sym (crc_bytes-append h (take n s) (drop n s)) ∙ ap (crc_bytes h) (take-append-drop n s)

-- An operand of `n` bytes, read from memory and added, counts as its bytes.
Adds : (ℕ → ℕ → ℕ) → ℕ → Type 0
Adds op n =
    (h : ℕ) (s : List ℕ)
    → h < 2 ^ 32
    → IsBytes s
    → n ≤ length s
    → op h (load_le (take n s)) ≡ crc_bytes h (take n s)

Adds_lem :
    (op : ℕ → ℕ → ℕ) (n : ℕ)
    → ((h v : ℕ) → h < 2 ^ 32 → v < 256 ^ n → op h v ≡ crc_bytes h (le_bytes n v))
    → Adds op n
unfolding Adds
Adds_lem op n law h s p q long =
    let len : length (take n s) ≡ n = omega (arith, length-take n s) in
    let bytes : IsBytes (take n s) = take-IsBytes n s q in
    law h (load_le (take n s)) p (load_le-lt n (take n s) bytes len)
    ∙ ap (crc_bytes h) (le_bytes-load_le n (take n s) bytes len)

-- What a stage of the routine keeps: the bytes left, added to the register, give the checksum `c`.
record Pending (c bound : ℕ) (r : ℕ × List ℕ) : Type 0 where
  register : r.0 < 2 ^ 32
  bytes : IsBytes r.1
  few : length r.1 ≤ bound
  sum : crc_bytes r.0 r.1 ≡ c

added :
    (op : ℕ → ℕ → ℕ) (n h c bound : ℕ) (s : List ℕ)
    → Adds op n
    → n ≤ length s
    → length s ≤ bound + n
    → {b : ℕ} → Pending c b (h, s)
    → Pending c bound (op h (load_le (take n s)), drop n s)
unfolding Adds
added op n h c bound s adds long few p =
    let same = adds h s p.register p.bytes long in
    record {
      register = rw same (crc_bytes-lt h (take n s) p.register (take-IsBytes n s p.bytes));
      bytes = drop-IsBytes n s p.bytes;
      few = omega (arith, length-drop n s);
      sum = rw same (crc_bytes-split h n s ∙ p.sum);
    }

-- The loop over words leaves at most seven bytes, given as much fuel as there are bytes.
hw_words-Pending :
    (u : Crc32Unit) (fuel h c : ℕ) (s : List ℕ)
    → Adds u.crc32_u64 8
    → length s ≤ fuel
    → Pending c fuel (h, s)
    → Pending c 7 (hw_words u fuel h s)
unfolding hw_words
hw_words-Pending u zero h c s adds e p = record {
  register = p.register;
  bytes = p.bytes;
  few = omega arith;
  sum = p.sum;
}
hw_words-Pending u (suc fuel) h c s adds e p = elim (Bool-cases (ltb 7 (length s))) [
  | inl long ↦ rw long (
      hw_words-Pending u fuel (u.crc32_u64 h (load_le (take 8 s))) c (drop 8 s) adds
        (ground (arith, length-drop 8 s))
        (added u.crc32_u64 8 h c fuel s adds (ground arith) (omega arith) p))
  | inr short ↦
      rw short (record { register = p.register; bytes = p.bytes; few = ground arith; sum = p.sum })
]

hw_tail-Pending :
    (op : ℕ → ℕ → ℕ) (n c bound : ℕ) (r : ℕ × List ℕ)
    → n ≡ bound + 1
    → Adds op n
    → Pending c (bound + n) r
    → Pending c bound (hw_tail op n r)
unfolding hw_tail
hw_tail-Pending op n c bound (h, s) e adds p = elim (Bool-cases (ltb (n - 1) (length s))) [
  | inl long ↦ rw long (added op n h c bound s adds (ground arith) p.few p)
  | inr short ↦
      rw short (record { register = p.register; bytes = p.bytes; few = ground arith; sum = p.sum })
]

Pending-done : {c : ℕ} {r : ℕ × List ℕ} → Pending c 0 r → r.0 ≡ c
Pending-done {r = r} p = go r.1 p.few p.sum
  where
    go : {h c : ℕ} (s : List ℕ) → length s ≤ 0 → crc_bytes h s ≡ c → h ≡ c
    go [] few sum = unfold crc_bytes in sum
    go (b ∷ s) few sum = absurd (omega arith)

Adds-u8 : (u : Crc32Unit) → IsFaultless u → Adds u.crc32_u8 1
unfolding crc_bytes le_bytes
Adds-u8 u f =
    Adds_lem u.crc32_u8 1
      λ h v p q. let same : v % 256 ≡ v = omega arith in rw same (f.adds_u8 h v p q)

-- On a machine whose CRC32 instruction does what it is documented to do, the hardware routine
-- returns, for every buffer, the checksum that the software routine returns.
pub crc32c_hw-eq-crc32c_sw :
    (u : Crc32Unit) (s : List ℕ) → IsFaultless u → IsBytes s → crc32c_hw u s ≡ crc32c_sw s
unfolding crc32c_hw crc32c_sw
crc32c_hw-eq-crc32c_sw u s f q = ap not32 (Pending-done stage_u8)
  where
    c : ℕ
    c = crc_bytes (2 ^ 32 - 1) s

    words : ℕ × List ℕ
    words = hw_words u (length s) (2 ^ 32 - 1) s

    stage_u64 : Pending c 7 words
    stage_u64 =
        hw_words-Pending u (length s) (2 ^ 32 - 1) c s (Adds_lem u.crc32_u64 8 f.adds_u64)
          (omega arith)
          (record { register = omega arith; bytes = q; few = omega arith; sum = refl })

    stage_cast : Pending c 7 (words.0 % 2 ^ 32, words.1)
    stage_cast =
        let same : words.0 % 2 ^ 32 ≡ words.0 = omega (arith, stage_u64.register) in
        rw same stage_u64

    stage_u32 : Pending c 3 (hw_tail u.crc32_u32 4 (words.0 % 2 ^ 32, words.1))
    stage_u32 = hw_tail-Pending u.crc32_u32 4 c 3 _ refl (Adds_lem _ 4 f.adds_u32) stage_cast

    stage_u16 :
        Pending c 1 (hw_tail u.crc32_u16 2 (hw_tail u.crc32_u32 4 (words.0 % 2 ^ 32, words.1)))
    stage_u16 = hw_tail-Pending u.crc32_u16 2 c 1 _ refl (Adds_lem _ 2 f.adds_u16) stage_u32

    stage_u8 : Pending c 0 (
        hw_tail u.crc32_u8 1
          (hw_tail u.crc32_u16 2 (hw_tail u.crc32_u32 4 (words.0 % 2 ^ 32, words.1))))
    stage_u8 = hw_tail-Pending u.crc32_u8 1 c 0 _ refl (Adds-u8 u f) stage_u16
