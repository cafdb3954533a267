-- ===== src/Fvt/Status.antt =====
-- `PowerManaged`, `FVT` and `InterestingEnables` of vendors/intel/intel.cc. The texts are kept as
-- what they say.
pub mod Laws
use cpu_check.Base.{ℕ, ◌/◌, ◌%◌, ◌^◌, Bool, List, [], ◌∷◌, ◌++◌, ◌==◌, if◌then◌else◌}
use cpu_check.Fvt.{Controller, read_msr, current_freq_mhz, k_ia32_perf_status, k_ia32_misc_enable}

abbrev pub k_ia32_therm_status : ℕ
k_ia32_therm_status = 0x19c

abbrev pub k_ia32_pm_enable : ℕ
k_ia32_pm_enable = 0x770

-- `(v >> k) & 0x1`, as a `bool`.
abbrev pub bit : ℕ → ℕ → Bool
bit k v = v / 2 ^ k % 2 == 1

-- A word of a text, if a flag is set.
abbrev pub word {ℓ} : {A : Type ℓ} → Bool → A → List A
word b a = if b then a ∷ [] else []

unfoldable pub power_managed : Controller → Bool
power_managed c = bit 0 (read_msr c k_ia32_pm_enable)

pub data PowState : Type 0 where
  critical proc_is_hot current_limit power_limit : PowState

-- The fields `f`, `voltage`, in units of 2 ^ -13 volts, `margin` and `pow_states`.
pub record Fvt : Type 0 where
  pub f : ℕ
  pub voltage : ℕ
  pub margin : ℕ
  pub pow_states : List PowState

unfoldable pub fvt : Controller → Fvt
fvt c =
    let v = read_msr c k_ia32_therm_status in
    let p = read_msr c k_ia32_perf_status in
    record {
      f = current_freq_mhz c;
      voltage = p / 2 ^ 32 % 2 ^ 16;
      margin = if bit 31 v then v / 2 ^ 16 % 2 ^ 7 else 0;
      pow_states =
          word (bit 4 v) critical
          ++ (word (bit 0 v) proc_is_hot
              ++ (word (bit 12 v) current_limit ++ word (bit 10 v) power_limit));
    }

pub data Enable : Type 0 where
  fast_strings auto_thermal_control power_management : Enable

unfoldable pub interesting_enables : Controller → List Enable
unfolding power_managed
interesting_enables c =
    let v = read_msr c k_ia32_misc_enable in
    word (bit 0 v) fast_strings
    ++ (word (bit 3 v) auto_thermal_control ++ word (power_managed c) power_management)
