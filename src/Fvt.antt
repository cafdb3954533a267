-- ===== src/Fvt.antt =====
-- The frequency control of an Intel processor: fvt_controller.h, vendors/intel/intel.cc, and
-- `ScheduledMHz` of cpu_check.cc. The model specific registers of the processor are its state.
pub mod Sampling
pub mod Mean
pub mod Laws
pub mod Session
pub mod Status
pub mod Create
pub mod Example
mod Tests
use cpu_check.Base.{
  ℕ, zero, suc, ◌+◌, ◌-◌, ◌*◌, ◌/◌, ◌%◌, ◌^◌, Bool, min, ltb, leb, ◌==◌, not, ◌&&◌, if◌then◌else◌,
  bit_and, bit_or,
}
use cpu_check.Base.Int.{ℤ, pos, negsuc, sub_ℕ}
use cpu_check.Fvt.Sampling.{Meter, reset_frequency_meter, sample}
use cpu_check.Base.Outcome.{Outcome, done, fatal, fault, ◌>>=◌}

-- `fd_`, `limit_mhz_`, `max_mHz_` and the meter, with the registers, and whether `pread` and `pwrite` succeed.
pub record Controller : Type 0 where
  pub opened : Bool
  pub limit_mhz : ℕ
  pub max_mhz : ℕ
  pub meter : Meter
  pub registers : ℕ → ℕ
  pub readable : ℕ → Bool
  pub writable : ℕ → Bool

abbrev pub k_min_turbo_mhz : ℕ
k_min_turbo_mhz = 1000

abbrev pub k_ia32_perf_status : ℕ
k_ia32_perf_status = 0x198

abbrev pub k_ia32_perf_ctl : ℕ
k_ia32_perf_ctl = 0x199

abbrev pub k_ia32_misc_enable : ℕ
k_ia32_misc_enable = 0x1a0

abbrev pub k_msr_turbo_ratio_limit : ℕ
k_msr_turbo_ratio_limit = 0x1ad

-- `ReadMsr`: 0 when the read fails.
unfoldable pub read_msr : Controller → ℕ → ℕ
read_msr c reg = if c.opened && c.readable reg then c.registers reg else 0

-- `WriteMsr`.
unfoldable pub write_msr : ℕ → ℕ → Controller → Controller
write_msr reg v c =
    if c.opened && c.writable reg
    then record c { registers = λ r. if r == reg then v else c.registers r }
    else c

-- `GetCurrentFreqLimitMhzImpl`, `GetCurrentFreqMhz` and `GetAbsoluteFreqLimitMhzImpl`.
unfoldable pub current_freq_limit_mhz : Controller → ℕ
unfolding read_msr
current_freq_limit_mhz c = read_msr c k_ia32_perf_ctl / 2 ^ 8 % 2 ^ 8 * 100

unfoldable pub current_freq_mhz : Controller → ℕ
unfolding read_msr
current_freq_mhz c = read_msr c k_ia32_perf_status / 2 ^ 8 % 2 ^ 8 * 100

unfoldable pub absolute_freq_limit_mhz : Controller → ℕ
unfolding read_msr
absolute_freq_limit_mhz c = read_msr c k_msr_turbo_ratio_limit % 2 ^ 8 * 100

-- `SetCurrentMaxFreqMhzImpl` at time `now`, with its asserts.
unfoldable pub set_current_max_freq_mhz : ℕ → ℤ → Controller → Outcome Controller
unfolding write_msr
set_current_max_freq_mhz now (negsuc n) c = fatal
set_current_max_freq_mhz now (pos mhz) c =
    let hundreds = mhz / 100 in
    if mhz == c.max_mhz
    then done c
    else if 100 * hundreds == mhz && (leb k_min_turbo_mhz mhz && leb mhz c.limit_mhz)
    then done (record (write_msr k_ia32_perf_ctl (hundreds * 2 ^ 8) c) {
      max_mhz = mhz;
      meter = reset_frequency_meter now;
    })
    else fatal

-- The constructor, from the registers that it finds.
unfoldable pub new_controller : ℕ → Controller → Outcome Controller
unfolding set_current_max_freq_mhz absolute_freq_limit_mhz
new_controller now c =
    let limit = absolute_freq_limit_mhz c in
    set_current_max_freq_mhz now (pos limit)
      (record c { limit_mhz = limit; max_mhz = 0; meter = reset_frequency_meter now })

-- The destructor.
unfoldable pub delete_controller : ℕ → Controller → Outcome Controller
unfolding set_current_max_freq_mhz
delete_controller now c = set_current_max_freq_mhz now (pos c.limit_mhz) c

-- `MonitorFrequency`: somebody else may have changed the limit.
unfoldable pub monitor_frequency : ℕ → Controller → Controller
unfolding current_freq_limit_mhz current_freq_mhz
monitor_frequency now c = record c {
  meter = sample now (current_freq_mhz c) c.meter;
  max_mhz = current_freq_limit_mhz c;
}

-- `ControlFastStringOps`.
unfoldable pub control_fast_string_ops : Bool → Controller → Controller
unfolding read_msr write_msr
control_fast_string_ops enable c =
    let v = read_msr c k_ia32_misc_enable in
    write_msr k_ia32_misc_enable (bit_or (bit_and v (2 ^ 64 - 2)) (if enable then 1 else 0)) c

-- The flags that `ScheduledMHz` reads, for frequencies that are not negative.
pub record Schedule : Type 0 where
  pub do_freq_sweep : Bool
  pub do_freq_hi_lo : Bool
  pub fixed_min_frequency : ℕ
  pub fixed_max_frequency : ℕ

unfoldable pub low_frequency : Schedule → ℕ
low_frequency o = if o.fixed_min_frequency == 0 then k_min_turbo_mhz else o.fixed_min_frequency

unfoldable pub high_frequency : Schedule → ℕ → ℕ
high_frequency o limit =
    if o.fixed_max_frequency == 0 then limit else min o.fixed_max_frequency limit

-- The absolute value of `1 + (hi_f - low_f) / 100`, whose division rounds to 0.
unfoldable pub step_count : ℕ → ℕ → ℕ
step_count low high =
    if leb low high
    then 1 + (high - low) / 100
    else if (low - high) / 100 == 0
    then 1
    else (low - high) / 100 - 1

-- Up on odd ramps, down on even ones; a division by no steps is a `fault`.
unfoldable pub ramp : ℕ → ℕ → ℕ → ℕ → Outcome ℤ
ramp low high zero t = fault
ramp low high (suc n) t =
    let step = t % suc n in
    done (if t / suc n % 2 == 1 then pos (low + 100 * step) else sub_ℕ high (100 * step))

-- `ScheduledMHz` with a controller of that limit; `t` is `TimeInSeconds() / seconds_per_freq` as an
-- integer, for a positive period.
unfoldable pub scheduled_mhz : Schedule → ℕ → ℕ → Outcome ℤ
scheduled_mhz o limit t =
    let low = low_frequency o in
    let high = high_frequency o limit in
    let is_fixed = not (o.fixed_min_frequency == 0) in
    if is_fixed && o.fixed_min_frequency == o.fixed_max_frequency
    then done (pos o.fixed_min_frequency)
    else if (not o.do_freq_sweep && not o.do_freq_hi_lo)
        && (o.fixed_min_frequency == 0 && o.fixed_max_frequency == 0)
    then done (pos limit)
    else if o.do_freq_hi_lo
    then done (pos (if t % 2 == 1 then low else high))
    else ramp low high (step_count low high) t
