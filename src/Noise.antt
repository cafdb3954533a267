-- ===== src/Noise.antt =====
-- `NoiseScheduler` and `SleepForMillis` of cpu_check.cc. The clock is in milliseconds; `wake t ms` is
-- its value after a sleep of `ms` from `t`, which the operating system decides.
pub mod Laws
mod Tests
use cpu_check.Base.{
  ℕ, zero, suc, ◌+◌, ◌-◌, ◌*◌, ◌/◌, ◌%◌, Option, none, some, List, [], ◌∷◌, min, ltb, ◌==◌,
  if◌then◌else◌,
}

abbrev pub k_coarse_millis : ℕ
k_coarse_millis = 5000

abbrev pub k_fine_millis : ℕ
k_fine_millis = 50

-- The arguments of `usleep`, for less than 2 ^ 31 microseconds, which an `int` holds. Each turn takes
-- a microsecond at least, so their number is enough fuel.
unfoldable pub sleeps : ℕ → ℕ → List ℕ
sleeps zero micros = []
sleeps (suc fuel) micros =
    let mm = min 1000000 micros in
    let rest = sleeps fuel (micros - mm) in if ltb 0 micros then mm ∷ rest else []

unfoldable pub sleep_for_millis : ℕ → List ℕ
unfolding sleeps
sleep_for_millis millis = let micros = 1000 * millis in sleeps micros micros

-- What a turn of the loop does at time `t`: return, or sleep for some milliseconds.
unfoldable pub pause : ℕ → Option ℕ
pause t =
    let coarse_block = t / k_coarse_millis in
    let phase = coarse_block % 4 in
    let fine_block = t / k_fine_millis in
    if phase == 2
    then none
    else if phase == 0
    then some ((coarse_block + 1) * k_coarse_millis - t)
    else if fine_block % 2 == 1
    then none
    else some ((fine_block + 1) * k_fine_millis - t)

-- `BlockUntilOn`: the time at which it returns, if it does within so many turns.
unfoldable pub block_until_on : (ℕ → ℕ → ℕ) → ℕ → ℕ → Option ℕ
block_until_on wake zero t = none
block_until_on wake (suc fuel) t = elim (pause t) as (λ _. Option ℕ) [
  | none ↦ some t
  | some ms ↦ block_until_on wake fuel (wake t ms)
]
