-- ===== src/Fvt/Tests.antt =====
-- The theorems on the frequency control at a concrete processor.
use cpu_check.Base.{ℕ, ◌≡◌, refl, true, false, if◌then◌else◌, ◌==◌, arith}
use cpu_check.Base.Int.{pos}
use cpu_check.Base.Outcome.{done, fault}
use cpu_check.Fvt.{
  read_msr, control_fast_string_ops, k_ia32_misc_enable, Controller, Schedule,
  current_freq_limit_mhz, set_current_max_freq_mhz, scheduled_mhz,
}
use cpu_check.Fvt.Example.{processor, processor-IsInStep}
use cpu_check.Fvt.Laws.{IsInStep, IsSensible, set_current_max_freq_mhz_lem}
use cpu_check.Base.{ℕ, ◌<◌, ◌≤◌, ◌++◌, some, none, false, [], ◌∷◌}
use cpu_check.Base.Outcome.{◌>>=◌, fatal}
use cpu_check.Fvt.{absolute_freq_limit_mhz}
use cpu_check.Fvt.Sampling.{reset_frequency_meter, sample, mean_freq_mhz}
use cpu_check.Fvt.Mean.{samples, mean_freq_mhz-samples}
use cpu_check.Fvt.Session.{session}
use cpu_check.Fvt.Session.Laws.{session_lem}
use cpu_check.Fvt.Status.{
  fvt, critical, proc_is_hot, current_limit, power_limit, word, bit, fast_strings,
  auto_thermal_control, power_management, power_managed, interesting_enables,
}
use cpu_check.Fvt.Status.Laws.{
  Thermal, thermal_word, fvt-thermal_word, interesting_enables-control_fast_string_ops,
}
use cpu_check.Fvt.Create.{
  CpuidResult, Platform, create, new_intel_fvt_controller, intel_vendor_string,
}
use cpu_check.Fvt.Create.Laws.{IsGenuine, create_lem}

abbrev sweep : Schedule
sweep = record {
  do_freq_sweep = true;
  do_freq_hi_lo = false;
  fixed_min_frequency = 1200;
  fixed_max_frequency = 2000;
}

sweep-IsSensible : IsSensible sweep 3400
sweep-IsSensible = record {
  limit_multiple = refl;
  low_multiple = refl;
  high_multiple = refl;
  low_above = unfold cpu_check.Fvt.low_frequency in omega arith;
  ordered =
      unfold cpu_check.Fvt.low_frequency in unfold cpu_check.Fvt.high_frequency in omega arith;
}

set_current_max_freq_mhz_lem_example :
    (c' : Controller) × (set_current_max_freq_mhz 50 (pos 1500) processor ≡ done c')
    × (current_freq_limit_mhz c' ≡ 1500)
    × IsInStep c'
    × (c'.limit_mhz ≡ 3400)
    × (c'.max_mhz ≡ 1500)
set_current_max_freq_mhz_lem_example =
    set_current_max_freq_mhz_lem 50 1500 processor processor-IsInStep
      (record { multiple = refl; above = omega arith; below = omega arith })

session_lem_example :
    (c' : Controller) × (session sweep true 300 50 (60 ∷ 300000000 ∷ []) 900000000 processor
      ≡ done c')
    × (current_freq_limit_mhz c' ≡ absolute_freq_limit_mhz processor)
    × (c'.max_mhz ≡ absolute_freq_limit_mhz processor)
session_lem_example =
    session_lem sweep true 300 50 900000000 (60 ∷ 300000000 ∷ []) processor
      (refl, (λ r. refl), (λ r. refl)) (omega arith)
      (unfold absolute_freq_limit_mhz in sweep-IsSensible)

mean_freq_mhz-samples_example :
    let m = samples ((20, 1200) ∷ (50, 1800) ∷ []) (reset_frequency_meter 10) in
    (m.t0 < m.previous_sample_time
      → (mean : ℕ) × (mean_freq_mhz m ≡ some mean) × (1000 ≤ mean) × (mean ≤ 2000))
    × (m.previous_sample_time ≡ m.t0 → mean_freq_mhz m ≡ none)
mean_freq_mhz-samples_example =
    mean_freq_mhz-samples 1000 2000 10 ((20, 1200) ∷ (50, 1800) ∷ []) (omega arith)

mean_is :
    mean_freq_mhz (samples ((20, 1200) ∷ (50, 1800) ∷ []) (reset_frequency_meter 10)) ≡ some 1650
unfolding mean_freq_mhz samples reset_frequency_meter sample
mean_is = refl

-- A lower frequency 150 MHz above the limit divides by no steps.
divides_by_zero :
    scheduled_mhz (record sweep { fixed_min_frequency = 3550; fixed_max_frequency = 4000 }) 3400 7
    ≡ fault
unfolding scheduled_mhz cpu_check.Fvt.low_frequency cpu_check.Fvt.high_frequency
    cpu_check.Fvt.step_count cpu_check.Fvt.ramp
divides_by_zero = refl

-- Hot and throttled, 18 degrees below the limit.
abbrev thermal : Thermal
thermal = record {
  hot = true;
  critical_now = false;
  power_limited = true;
  current_limited = false;
  readout = 18;
  is_valid = true;
  log1 = 1;
  log5 = 0;
  log11 = 1;
  log13 = 0;
  resolution = 8;
  log32 = 0;
}

abbrev hot_processor : Controller
hot_processor = record processor { registers = λ r. if r == 0x19c then thermal_word thermal else 0 }

fvt-thermal_word_example :
    ((fvt hot_processor).margin ≡ (if true then 18 else 0))
    × ((fvt hot_processor).pow_states
        ≡ word false critical
          ++ (word true proc_is_hot ++ (word false current_limit ++ word true power_limit)))
fvt-thermal_word_example =
    fvt-thermal_word hot_processor thermal (unfold read_msr in refl) (record {
      readout_fits = omega arith;
      log1_fits = omega arith;
      log5_fits = omega arith;
      log11_fits = omega arith;
      log13_fits = omega arith;
      resolution_fits = omega arith;
    })

interesting_enables-control_fast_string_ops_example :
    interesting_enables (control_fast_string_ops true processor)
    ≡ word true fast_strings
      ++ (word (bit 3 (processor.registers k_ia32_misc_enable)) auto_thermal_control
          ++ word (power_managed processor) power_management)
interesting_enables-control_fast_string_ops_example =
    interesting_enables-control_fast_string_ops processor true (refl, (λ r. refl), (λ r. refl))
      (omega arith)

abbrev registers : CpuidResult
registers = record { eax = 22; ebx = 0x756e6547; ecx = 0x6c65746e; edx = 0x49656e69 }

abbrev machine : Platform
machine = record {
  is_x86 = true;
  vendors_intel = true;
  vendors_amd = false;
  cpuid = λ cpu eax. some registers;
  processor = λ cpu. processor;
}

create_lem_example :
    (IsGenuine registers
      → create machine 7 3 none
        ≡ (new_intel_fvt_controller machine 7 3 >>= λ c. done (c, some intel_vendor_string)))
    × (¬ IsGenuine registers → create machine 7 3 none ≡ fatal)
create_lem_example =
    create_lem machine 7 3 registers refl refl refl refl
      (record { ebx_small = omega arith; ecx_small = omega arith; edx_small = omega arith })
