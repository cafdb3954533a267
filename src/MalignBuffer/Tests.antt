-- ===== src/MalignBuffer/Tests.antt =====
-- Tests of malign_buffer.cc, and its theorems at concrete inputs.
use cpu_check.Base.{
  ℕ, ◌+◌, ◌/◌, ◌-◌, ◌%◌, ◌^◌, ◌≡◌, ◌≤◌, ◌<◌, ◌≢◌, ◌⊎◌, refl, Option, none, some, List, [], ◌∷◌,
  length, length-replicate, replicate, write, arith,
}
use native.Mathlib.Nat.{mod-lt}
use cpu_check.Base.Outcome.{done, fatal}
use cpu_check.Base.Rng.{Rng, IsUniform}
use cpu_check.MalignBuffer.{
  MalignBuffer, IsValid, contents, k_rep_mov, k_sse_by128, copy_bytes, initialize,
  new_malign_buffer, round_up_to_page_size,
}
use cpu_check.MalignBuffer.Copy.{copy_bytes-eq-write}
use cpu_check.MalignBuffer.Store.{initialized, new_malign_buffer_lem}
use cpu_check.MalignBuffer.Syndrome.{Report, wrong, corruption_syndrome, memcmp, copy_from}
use cpu_check.MalignBuffer.Syndrome.Laws.{IsReport, corruption_syndrome-IsReport, copy_from_lem}
use cpu_check.MalignBuffer.Ranges.{
  madvise_dont_need, flush_lines, is_flushed, random_flush, madvise_dont_need_lem, random_flush_lem,
}

-- 24 bytes of capacity on pages of 8 bytes, used from byte 3 on.
abbrev small : MalignBuffer
small = record {
  capacity = 24;
  base_address = 4096;
  alignment_offset = 3;
  buffer_length = 20;
  buffer_address = 4099;
  memory = replicate 32 0;
}

small-IsValid : IsValid 8 small
small-IsValid = record {
  aligned = omega arith;
  fits = omega arith;
  placed = refl;
  room = omega arith;
}

abbrev text : List ℕ
text = 1 ∷ 2 ∷ 3 ∷ 4 ∷ 5 ∷ 6 ∷ 7 ∷ 8 ∷ 9 ∷ 10 ∷ 11 ∷ 12 ∷ 13 ∷ 14 ∷ 15 ∷ 16 ∷ 17 ∷ 18 ∷ 19 ∷ 20 ∷ []

copy_bytes-eq-write_example : copy_bytes k_sse_by128 small.memory 3 text ≡ write small.memory 3 text
copy_bytes-eq-write_example = copy_bytes-eq-write k_sse_by128 small.memory 3 text

abbrev zeroed : ℕ → Option (ℕ × List ℕ)
zeroed n = some (4096, replicate n 0)

zeroed_sizes : (n : ℕ) (r : ℕ × List ℕ) → zeroed n ≡ some r → length r.1 ≡ n
zeroed_sizes n r e = ground (arith, length-replicate {A = ℕ} n 0)

abbrev made : MalignBuffer
made = record {
  capacity = 24;
  base_address = 4096;
  alignment_offset = 0;
  buffer_length = 0;
  buffer_address = 0;
  memory = replicate 32 0;
}

made_by : new_malign_buffer zeroed 8 24 ≡ done made
unfolding new_malign_buffer round_up_to_page_size
made_by = refl

new_malign_buffer_lem_example :
    (initialize 8 7 24 made ≡ done (initialized 7 24 made)) × IsValid 8 (initialized 7 24 made)
new_malign_buffer_lem_example =
    new_malign_buffer_lem zeroed 8 24 (omega arith) zeroed_sizes made_by 7 24 (omega arith)
      (omega arith)

corruption_syndrome-IsReport_example :
    (r : Report) × (corruption_syndrome (memcmp (5 ∷ 6 ∷ []) (5 ∷ 7 ∷ [])) (5 ∷ 6 ∷ []) (5 ∷ 7 ∷ [])
      ≡ some (wrong r))
    × IsReport (5 ∷ 6 ∷ []) (5 ∷ 7 ∷ []) r
corruption_syndrome-IsReport_example =
    corruption_syndrome-IsReport (5 ∷ 6 ∷ []) (5 ∷ 7 ∷ []) refl (omega arith) (λ e. cc)

copy_from_lem_example :
    ((small.buffer_length ≢ small.buffer_length) × (copy_from small k_rep_mov small ≡ fatal))
    ⊎ ((b : MalignBuffer) × (copy_from small k_rep_mov small ≡ done (b, none))
        × (contents b ≡ contents small)
        × IsValid 8 b
        × (b.buffer_length ≡ small.buffer_length)
        × (b.capacity ≡ small.capacity))
copy_from_lem_example = copy_from_lem 8 small small k_rep_mov small-IsValid small-IsValid

abbrev counter : Rng
counter = record { S = ℕ; seed = λ n. n; draw = λ lo hi s. (lo + s % (hi - lo + 1), s + 1) }

counter-IsUniform : IsUniform counter
counter-IsUniform = record {
  above = λ lo hi s h. omega arith;
  below = λ lo hi s h. omega (arith, mod-lt s {m = hi - lo + 1});
}

drops : madvise_dont_need (2 ^ 3) small ≡ some (4104, 8)
unfolding madvise_dont_need
drops = refl

madvise_dont_need_lem_example :
    (4104 % 2 ^ 3 ≡ 0)
    × ((4104 + 8) % 2 ^ 3 ≡ 0)
    × (0 < 8)
    × (small.buffer_address ≤ 4104)
    × (4104 + 8 ≤ small.buffer_address + small.buffer_length)
madvise_dont_need_lem_example =
    madvise_dont_need_lem 3 small 4104 8 (omega arith) (omega arith) drops

-- Byte 4102 is flushed.
random_flush_lem_example :
    ((small.buffer_address + small.alignment_offset) / 4 ≤ 4102 / 4)
    × (4102 / 4 ≤ (small.buffer_address + small.buffer_length - 1) / 4)
unfolding random_flush flush_lines is_flushed
random_flush_lem_example = random_flush_lem counter 4 small 1 4102 (omega arith) refl
