-- ===== src/Fvt/Example.antt =====
-- A processor for the tests.
use cpu_check.Base.{refl, true, ◌==◌, ◌*◌, ◌^◌, if◌then◌else◌, arith}
use cpu_check.Fvt.{Controller, current_freq_limit_mhz}
use cpu_check.Fvt.Laws.{IsInStep}

-- A limit of 3400 MHz, which is set.
abbrev pub processor : Controller
processor = record {
  opened = true;
  limit_mhz = 3400;
  max_mhz = 3400;
  meter = record { t0 = 0; previous_sample_time = 0; sum_mhz = 0 };
  registers = λ r. if r == 0x199 then 34 * 2 ^ 8 else 34;
  readable = λ r. true;
  writable = λ r. true;
}

pub processor-IsInStep : IsInStep processor
processor-IsInStep = record {
  access = record {
    opened = refl;
    readable = λ r. refl;
    writable = λ r. refl;
    small = omega arith;
  };
  same = unfold current_freq_limit_mhz in refl;
}
