-- ===== src/Noise/Laws.antt =====
-- The noise scheduler blocks for a bounded time, and returns in a phase that is on.
use cpu_check.Base.{
  ℕ, zero, suc, ◌+◌, ◌-◌, ◌*◌, ◌/◌, ◌%◌, ◌≡◌, ◌≤◌, ◌<◌, ◌⊎◌, refl, false, ◌∙◌, inl, inr, none, some,
  List, [], ◌∷◌, All, min, ltb, ◌==◌, arith, Bool-cases,
}
use cpu_check.Noise.{
  sleeps, sleep_for_millis, pause, block_until_on, k_coarse_millis, k_fine_millis,
}

unfoldable pub sum : List ℕ → ℕ
sum [] = 0
sum (n ∷ ns) = n + sum ns

sleeps_lem :
    (fuel micros : ℕ)
    → micros ≤ fuel
    → (sum (sleeps fuel micros) ≡ micros) × All (λ n. (0 < n) × (n ≤ 1000000)) (sleeps fuel micros)
unfolding sleeps sum
sleeps_lem zero micros h = (omega arith, tt)
sleeps_lem (suc fuel) micros h = elim (Bool-cases (ltb 0 micros)) [
  | inr e ↦ rw e (ground arith, tt)
  | inl e ↦
      let some : 0 < micros = ground arith in
      let rest = sleeps_lem fuel (micros - min 1000000 micros) (omega arith) in
      rw e (omega (arith, rest.0), ((omega arith, omega arith), rest.1))
]

-- `SleepForMillis` sleeps in pieces of at most a second, none of them empty, that add up to the
-- time asked.
pub sleep_for_millis_lem :
    (millis : ℕ)
    → (sum (sleep_for_millis millis) ≡ 1000 * millis)
      × All (λ n. (0 < n) × (n ≤ 1000000)) (sleep_for_millis millis)
unfolding sleep_for_millis
sleep_for_millis_lem millis = sleeps_lem (1000 * millis) (1000 * millis) (omega arith)

-- On: the third coarse phase, or an odd fine block of the second or the fourth.
abbrev pub IsOn : ℕ → Type 0
IsOn t =
    (t / k_coarse_millis % 4 ≡ 2) ⊎ ((t / k_coarse_millis % 2 ≡ 1) × (t / k_fine_millis % 2 ≡ 1))

pause_on : (t : ℕ) → t / k_coarse_millis % 4 ≡ 2 → pause t ≡ none
unfolding pause
pause_on t e = ground (arith, e)

pause_coarse :
    (t : ℕ)
    → t / k_coarse_millis % 4 ≡ 0
    → pause t ≡ some ((t / k_coarse_millis + 1) * k_coarse_millis - t)
unfolding pause
pause_coarse t e = ground (arith, e)

pause_fine : (t : ℕ) → t / k_coarse_millis % 2 ≡ 1 → t / k_fine_millis % 2 ≡ 1 → pause t ≡ none
unfolding pause
pause_fine t e f = ground (arith, e, f)

pause_off :
    (t : ℕ)
    → t / k_coarse_millis % 2 ≡ 1
    → t / k_fine_millis % 2 ≡ 0
    → pause t ≡ some ((t / k_fine_millis + 1) * k_fine_millis - t)
unfolding pause
pause_off t e f = ground (arith, e, f)

odd_phase : (n : ℕ) → (n % 4 == 2) ≡ false → (n % 4 == 0) ≡ false → n % 2 ≡ 1
odd_phase n e f = ground (arith, e, f)

-- A sleep takes its time at least, and at most `slack` milliseconds more.
pub record IsLate (slack : ℕ) (wake : ℕ → ℕ → ℕ) : Type 0 where
  pub slept : (t ms : ℕ) → t + ms ≤ wake t ms
  pub punctual : (t ms : ℕ) → wake t ms ≤ t + ms + slack

module _ (wake : ℕ → ℕ → ℕ) (slack : ℕ) (late : IsLate slack wake)
    (short : slack < k_fine_millis) where
  returns : (fuel t : ℕ) → pause t ≡ none → block_until_on wake (suc fuel) t ≡ some t
  unfolding block_until_on
  returns fuel t e = rw (block_until_on, e) refl

  sleeps_on :
      (fuel t ms : ℕ)
      → pause t ≡ some ms
      → block_until_on wake (suc fuel) t ≡ block_until_on wake fuel (wake t ms)
  unfolding block_until_on
  sleeps_on fuel t ms e = rw (block_until_on, e) refl

  -- In the phases of high-speed on and off.
  fine_lem :
      (k t : ℕ)
      → t / k_coarse_millis % 2 ≡ 1
      → (t' : ℕ) × (block_until_on wake (suc (suc k)) t ≡ some t')
        × IsOn t'
        × (t ≤ t')
        × (t' ≤ t + k_fine_millis + slack)
  fine_lem k t odd = elim (Bool-cases (t / k_fine_millis % 2 == 1)) [
    | inl on ↦
        let fine : t / k_fine_millis % 2 ≡ 1 = ground (arith, on) in
        (t, returns (suc k) t (pause_fine t odd fine), inr (odd, fine), omega arith, omega arith)
    | inr off ↦
        let fine : t / k_fine_millis % 2 ≡ 0 = ground (arith, off) in
        let ms = (t / k_fine_millis + 1) * k_fine_millis - t in
        let t' = wake t ms in
        let odd' : t' / k_coarse_millis % 2 ≡ 1 =
          omega (arith, odd, fine, short, late.slept t ms, late.punctual t ms) in
        let fine' : t' / k_fine_millis % 2 ≡ 1 =
          omega (arith, fine, short, late.slept t ms, late.punctual t ms) in
        (
          t',
          sleeps_on (suc k) t ms (pause_off t odd fine) ∙ returns k t' (pause_fine t' odd' fine'),
          inr (odd', fine'),
          omega (arith, late.slept t ms),
          omega (arith, late.punctual t ms),
        )
  ]

-- When a sleep takes its time at least, and overshoots by at most `slack`, which is less than a fine
-- period of 50 milliseconds: `BlockUntilOn` returns within three turns, at a time that is on, and waits
-- for at most a coarse period, a fine one and twice the slack.
pub block_until_on_lem :
    (wake : ℕ → ℕ → ℕ) (slack t : ℕ)
    → IsLate slack wake
    → slack < k_fine_millis
    → (t' : ℕ) × (block_until_on wake 3 t ≡ some t')
      × IsOn t'
      × (t ≤ t')
      × (t' ≤ t + k_coarse_millis + k_fine_millis + 2 * slack)
block_until_on_lem wake slack t late short = elim (Bool-cases (t / k_coarse_millis % 4 == 2)) [
  | inl on ↦
      let second : t / k_coarse_millis % 4 ≡ 2 = ground (arith, on) in
      (
        t,
        returns wake slack late short 2 t (pause_on t second),
        inl second,
        omega arith,
        omega arith,
      )
  | inr other ↦ elim (Bool-cases (t / k_coarse_millis % 4 == 0)) [
    | inl off ↦
        let ms = (t / k_coarse_millis + 1) * k_coarse_millis - t in
        let zeroth : t / k_coarse_millis % 4 ≡ 0 = ground (arith, off) in
        let t1 = wake t ms in
        let odd : t1 / k_coarse_millis % 2 ≡ 1 =
          omega (arith, zeroth, short, late.slept t ms, late.punctual t ms) in
        let (t', blocks, on, from, to) = fine_lem wake slack late short 0 t1 odd in
        (
          t',
          sleeps_on wake slack late short 2 t ms (pause_coarse t zeroth) ∙ blocks,
          on,
          omega (arith, from, late.slept t ms),
          omega (arith, to, late.punctual t ms),
        )
    | inr not_off ↦
        let odd : t / k_coarse_millis % 2 ≡ 1 = odd_phase (t / k_coarse_millis) other not_off in
        let (t', blocks, on, from, to) = fine_lem wake slack late short 1 t odd in
        (t', blocks, on, from, omega (arith, to))
  ]
]
