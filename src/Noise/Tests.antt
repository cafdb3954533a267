-- ===== src/Noise/Tests.antt =====
-- The theorem on the noise scheduler at a concrete time, with sleeps that take 3 milliseconds more.
use cpu_check.Base.{ℕ, ◌+◌, ◌*◌, ◌≡◌, ◌≤◌, some, arith}
use cpu_check.Noise.{block_until_on, k_coarse_millis, k_fine_millis}
use cpu_check.Noise.Laws.{IsOn, IsLate, block_until_on_lem}

abbrev wake : ℕ → ℕ → ℕ
wake t ms = t + ms + 3

wake-IsLate : IsLate 3 wake
wake-IsLate = record { slept = λ t ms. omega arith; punctual = λ t ms. omega arith }

block_until_on_lem_example :
    (t' : ℕ) × (block_until_on wake 3 1234 ≡ some t')
    × IsOn t'
    × (1234 ≤ t')
    × (t' ≤ 1234 + k_coarse_millis + k_fine_millis + 2 * 3)
block_until_on_lem_example = block_until_on_lem wake 3 1234 wake-IsLate (omega arith)
