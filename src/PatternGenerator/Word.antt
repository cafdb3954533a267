-- ===== src/PatternGenerator/Word.antt =====
-- The words of the systematic pattern, taken apart by `CrackId`.
use cpu_check.Base.{ℕ, ◌+◌, ◌*◌, ◌/◌, ◌%◌, ◌^◌, ◌≡◌, bit_or, arith}
use cpu_check.Base.Bits.{bit_or-add, bit_and-mask}
use cpu_check.MalignBuffer.Syndrome.{crack_id}
use cpu_check.PatternGenerator.{Env, systematic_word}

systematic_word_sum :
    (env : Env) (round i : ℕ)
    → systematic_word env round i
      ≡ (env.pid % 2 ^ 16 * 2 ^ 24 + round % 2 ^ 24) * 2 ^ 24 + i % 2 ^ 24
unfolding systematic_word
systematic_word_sum env round i =
    let a = env.pid % 2 ^ 16 in
    let r = round % 2 ^ 24 in
    let top : bit_or (a * 2 ^ 48) (r * 2 ^ 24) ≡ (a * 2 ^ 24 + r) * 2 ^ 24 =
      omega (arith, bit_or-add 48 a (r * 2 ^ 24) (omega arith)) in
    rw (bit_and-mask 16 env.pid, bit_and-mask 24 round, bit_and-mask 24 i, top)
      (bit_or-add 24 (a * 2 ^ 24 + r) (i % 2 ^ 24) (omega arith))

-- `CrackId` finds in the word at index `i` of the systematic pattern the low 16 bits of the process
-- id, the low 24 bits of the round and the low 24 bits of the index.
pub crack_id-systematic_word :
    (env : Env) (round i : ℕ)
    → let c = crack_id (systematic_word env round i) in
      (c.high ≡ env.pid % 2 ^ 16) × (c.middle ≡ round % 2 ^ 24) × (c.low ≡ i % 2 ^ 24)
unfolding crack_id
crack_id-systematic_word env round i =
    let e = systematic_word_sum env round i in
    let w = systematic_word env round i in
    (
      omega (arith, e),
      omega (arith, e, bit_and-mask 24 (w / 2 ^ 24)),
      omega (arith, e, bit_and-mask 24 w),
    )
