-- ===== src/Fvt/Mean.antt =====
-- The mean frequency of the meter.
use mathlib.Core.Path.{subst}
use cpu_check.Base.{
  ℕ, suc, ◌+◌, ◌-◌, ◌*◌, ◌/◌, ◌≡◌, ◌≤◌, ◌<◌, refl, none, some, List, [], ◌∷◌, arith,
}
use cpu_check.Fvt.Sampling.{Meter, reset_frequency_meter, sample, mean_freq_mhz}

-- Samples, a time and a frequency each, in the order in which they are taken.
unfoldable pub samples : List (ℕ × ℕ) → Meter → Meter
samples [] m = m
samples ((now, f) ∷ rest) m = samples rest (sample now f m)

-- The times do not go back from `from`, and the frequencies are in a range.
abbrev pub IsTimeline : ℕ → ℕ → ℕ → List (ℕ × ℕ) → Type 0
IsTimeline low high from [] = Unit
IsTimeline low high from ((now, f) ∷ rest) =
    ((from ≤ now) × (low ≤ f) × (f ≤ high)) × IsTimeline low high now rest

-- The sum lies between the multiples of the time passed.
record Within (low high : ℕ) (m : Meter) : Type 0 where
  forward : m.t0 ≤ m.previous_sample_time
  above : (m.previous_sample_time - m.t0) * low ≤ m.sum_mhz
  below : m.sum_mhz ≤ (m.previous_sample_time - m.t0) * high

add_above : (d e low f sum : ℕ) → d * low ≤ sum → low ≤ f → (d + e) * low ≤ sum + e * f
add_above d e low f sum h l = grind arith

add_below : (d e high f sum : ℕ) → sum ≤ d * high → f ≤ high → sum + e * f ≤ (d + e) * high
add_below d e high f sum h l = grind arith

sample-Within :
    (low high now f : ℕ) (m : Meter)
    → Within low high m
    → m.previous_sample_time ≤ now
    → low ≤ f
    → f ≤ high
    → Within low high (sample now f m)
unfolding sample
sample-Within low high now f m w later l h =
    let d = m.previous_sample_time - m.t0 in
    let e = now - m.previous_sample_time in
    let passed : now - m.t0 ≡ d + e = omega (arith, w.forward) in
    record {
      forward = omega (arith, w.forward);
      above = rw passed (add_above d e low f m.sum_mhz w.above l);
      below = rw passed (add_below d e high f m.sum_mhz w.below h);
    }

samples-Within :
    (low high : ℕ) (rest : List (ℕ × ℕ)) (m : Meter)
    → Within low high m
    → IsTimeline low high m.previous_sample_time rest
    → Within low high (samples rest m)
unfolding samples sample
samples-Within low high [] m w line = w
samples-Within low high ((now, f) ∷ rest) m w line =
    samples-Within low high rest (sample now f m)
      (sample-Within low high now f m w line.0.0 line.0.1 line.0.2) line.1

quotient_bounds :
    (low high d sum : ℕ)
    → suc d * low ≤ sum
    → sum ≤ suc d * high
    → (low ≤ sum / suc d) × (sum / suc d ≤ high)
quotient_bounds low high d sum above below = (grind arith, grind arith)

mean_of :
    (low high d : ℕ) (m : Meter)
    → Within low high m
    → m.previous_sample_time - m.t0 ≡ suc d
    → (mean : ℕ) × (mean_freq_mhz m ≡ some mean) × (low ≤ mean) × (mean ≤ high)
unfolding mean_freq_mhz
mean_of low high d m w e =
    let (least, most) =
      quotient_bounds low high d m.sum_mhz (subst (λ (n : ℕ). n * low ≤ m.sum_mhz) e w.above)
        (subst (λ (n : ℕ). m.sum_mhz ≤ n * high) e w.below) in
    (m.sum_mhz / suc d, rw e refl, least, most)

mean_none : (m : Meter) → m.previous_sample_time ≡ m.t0 → mean_freq_mhz m ≡ none
unfolding mean_freq_mhz
mean_none m e =
    let zero_passed : m.previous_sample_time - m.t0 ≡ 0 = omega arith in rw zero_passed refl

-- After a reset and samples on a clock that does not go back, with frequencies between two bounds, the
-- mean frequency is a number between these bounds, if time has passed since the reset; if none has,
-- it is none.
pub mean_freq_mhz-samples :
    (low high now : ℕ) (rest : List (ℕ × ℕ))
    → IsTimeline low high now rest
    → let m = samples rest (reset_frequency_meter now) in
      (m.t0 < m.previous_sample_time
        → (mean : ℕ) × (mean_freq_mhz m ≡ some mean) × (low ≤ mean) × (mean ≤ high))
      × (m.previous_sample_time ≡ m.t0 → mean_freq_mhz m ≡ none)
unfolding reset_frequency_meter
mean_freq_mhz-samples low high now rest line =
    let start : Meter = record { t0 = now; previous_sample_time = now; sum_mhz = 0 } in
    let none_passed : now - now ≡ 0 = omega arith in
    let w : Within low high start = record {
      forward = omega arith;
      above = rw none_passed (omega arith);
      below = omega arith;
    } in
    let m = samples rest start in
    (
      λ passed.
          mean_of low high (m.previous_sample_time - m.t0 - 1) m
            (samples-Within low high rest start w line) (omega arith),
      mean_none m,
    )
