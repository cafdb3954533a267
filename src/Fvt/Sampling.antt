-- ===== src/Fvt/Sampling.antt =====
-- The frequency meter of `FVTController`: times in microseconds, and the sum in megahertz times
-- microseconds. The rounding of doubles is left out.
use cpu_check.Base.{ℕ, zero, suc, ◌+◌, ◌-◌, ◌*◌, ◌/◌, Option, none, some}

-- `t0_`, `previous_sample_time_` and `sum_mHz_`.
pub record Meter : Type 0 where
  pub t0 : ℕ
  pub previous_sample_time : ℕ
  pub sum_mhz : ℕ

-- `ResetFrequencyMeter`.
unfoldable pub reset_frequency_meter : ℕ → Meter
reset_frequency_meter now = record { t0 = now; previous_sample_time = now; sum_mhz = 0 }

-- What `MonitorFrequency` adds for the frequency `f`, on a clock that does not go back.
unfoldable pub sample : ℕ → ℕ → Meter → Meter
sample now f m = record m {
  sum_mhz = m.sum_mhz + (now - m.previous_sample_time) * f;
  previous_sample_time = now;
}

quotient : ℕ → ℕ → Option ℕ
quotient a zero = none
quotient a (suc b) = some (a / suc b)

-- `GetMeanFreqMhz`; `none` is the quotient of zero by zero, which is no number, made an `int`.
unfoldable pub mean_freq_mhz : Meter → Option ℕ
unfolding quotient
mean_freq_mhz m = quotient m.sum_mhz (m.previous_sample_time - m.t0)
