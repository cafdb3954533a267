-- ===== src/Fvt/Status/Laws.antt =====
-- What `FVT` and `InterestingEnables` find in the registers.
use cpu_check.Base.{
  ℕ, ◌+◌, ◌*◌, ◌/◌, ◌%◌, ◌^◌, ◌≡◌, ◌<◌, refl, Bool, true, false, ◌++◌, ◌==◌, if◌then◌else◌, arith,
}
use cpu_check.Fvt.{Controller, read_msr, k_ia32_misc_enable, control_fast_string_ops}
use cpu_check.Fvt.Laws.{control_fast_string_ops_lem}
use cpu_check.Fvt.Status.{
  bit, word, k_ia32_therm_status, k_ia32_pm_enable, critical, proc_is_hot, current_limit,
  power_limit, fvt, fast_strings, auto_thermal_control, power_management, interesting_enables,
  power_managed,
}

abbrev pub bit_of : Bool → ℕ
bit_of b = if b then 1 else 0

-- The fields of the thermal status register as the manual of the processor lays them out; what
-- stands between them is reserved or a log bit.
pub record Thermal : Type 0 where
  pub hot : Bool
  pub critical_now : Bool
  pub power_limited : Bool
  pub current_limited : Bool
  pub readout : ℕ
  pub is_valid : Bool
  pub log1 : ℕ
  pub log5 : ℕ
  pub log11 : ℕ
  pub log13 : ℕ
  pub resolution : ℕ
  pub log32 : ℕ

pub record Fits (t : Thermal) : Type 0 where
  pub readout_fits : t.readout < 2 ^ 7
  pub log1_fits : t.log1 < 2 ^ 3
  pub log5_fits : t.log5 < 2 ^ 5
  pub log11_fits : t.log11 < 2
  pub log13_fits : t.log13 < 2 ^ 3
  pub resolution_fits : t.resolution < 2 ^ 8

abbrev pub thermal_word : Thermal → ℕ
thermal_word t =
    bit_of t.hot
    + 2 * t.log1
    + 2 ^ 4 * bit_of t.critical_now
    + 2 ^ 5 * t.log5
    + 2 ^ 10 * bit_of t.power_limited
    + 2 ^ 11 * t.log11
    + 2 ^ 12 * bit_of t.current_limited
    + 2 ^ 13 * t.log13
    + 2 ^ 16 * t.readout
    + 2 ^ 23 * t.resolution
    + 2 ^ 31 * bit_of t.is_valid
    + 2 ^ 32 * t.log32

bit_of-lt : (b : Bool) → bit_of b < 2
bit_of-lt true = omega arith
bit_of-lt false = omega arith

module _ (t : Thermal) (fits : Fits t) where
  thermal_word-hot : thermal_word t / 2 ^ 0 % 2 ≡ bit_of t.hot
  thermal_word-hot = omega (arith, bit_of-lt t.hot)

  thermal_word-critical : thermal_word t / 2 ^ 4 % 2 ≡ bit_of t.critical_now
  thermal_word-critical = omega (arith, bit_of-lt t.hot, bit_of-lt t.critical_now)

  thermal_word-power : thermal_word t / 2 ^ 10 % 2 ≡ bit_of t.power_limited
  thermal_word-power =
      omega (arith, bit_of-lt t.hot, bit_of-lt t.critical_now, bit_of-lt t.power_limited)

  thermal_word-current : thermal_word t / 2 ^ 12 % 2 ≡ bit_of t.current_limited
  thermal_word-current = omega (
    arith,
    bit_of-lt t.hot,
    bit_of-lt t.critical_now,
    bit_of-lt t.power_limited,
    bit_of-lt t.current_limited,
  )

  thermal_word-readout : thermal_word t / 2 ^ 16 % 2 ^ 7 ≡ t.readout
  thermal_word-readout = omega (
    arith,
    bit_of-lt t.hot,
    bit_of-lt t.critical_now,
    bit_of-lt t.power_limited,
    bit_of-lt t.current_limited,
  )

  thermal_word-valid : thermal_word t / 2 ^ 31 % 2 ≡ bit_of t.is_valid
  thermal_word-valid = omega (
    arith,
    bit_of-lt t.hot,
    bit_of-lt t.critical_now,
    bit_of-lt t.power_limited,
    bit_of-lt t.current_limited,
    bit_of-lt t.is_valid,
  )

bit_of-eq : (n : ℕ) (b : Bool) → n ≡ bit_of b → (n == 1) ≡ b
bit_of-eq n true e = ground arith
bit_of-eq n false e = ground arith

-- `FVT` reads the fields of the thermal status back: the flags in its order of words, and the margin
-- when it is marked as valid, else 0.
pub fvt-thermal_word :
    (c : Controller) (t : Thermal)
    → read_msr c k_ia32_therm_status ≡ thermal_word t
    → Fits t
    → ((fvt c).margin ≡ (if t.is_valid then t.readout else 0))
      × ((fvt c).pow_states
          ≡ word t.critical_now critical
            ++ (word t.hot proc_is_hot
                ++ (word t.current_limited current_limit ++ word t.power_limited power_limit)))
unfolding fvt
fvt-thermal_word c t reads fits =
    let is_critical = bit_of-eq _ t.critical_now (thermal_word-critical t fits) in
    let is_hot = bit_of-eq _ t.hot (thermal_word-hot t fits) in
    let is_current = bit_of-eq _ t.current_limited (thermal_word-current t fits) in
    let is_power = bit_of-eq _ t.power_limited (thermal_word-power t fits) in
    let valid = bit_of-eq _ t.is_valid (thermal_word-valid t fits) in
    (
      rw (reads, valid, thermal_word-readout t fits) refl,
      rw (reads, is_critical, is_hot, is_current, is_power) refl,
    )

-- When the registers can be read and written and hold 64 bits, `InterestingEnables` names the fast
-- string operations after `ControlFastStringOps` exactly if they were asked for, and the thermal
-- control and the power management as before.
pub interesting_enables-control_fast_string_ops :
    (c : Controller) (enable : Bool)
    → (c.opened ≡ true) × ((r : ℕ) → c.readable r ≡ true) × ((r : ℕ) → c.writable r ≡ true)
    → c.registers k_ia32_misc_enable < 2 ^ 64
    → interesting_enables (control_fast_string_ops enable c)
      ≡ word enable fast_strings
        ++ (word (bit 3 (c.registers k_ia32_misc_enable)) auto_thermal_control
            ++ word (power_managed c) power_management)
unfolding interesting_enables
interesting_enables-control_fast_string_ops c enable s small =
    let (reads, others) = control_fast_string_ops_lem c enable s small in
    let v = c.registers k_ia32_misc_enable in
    let low : bit 0 (v / 2 * 2 + bit_of enable) ≡ enable =
      bit_of-eq _ enable (omega (arith, bit_of-lt enable)) in
    let third : (v / 2 * 2 + bit_of enable) / 2 ^ 3 % 2 ≡ v / 2 ^ 3 % 2 =
      omega (arith, bit_of-lt enable) in
    rw (reads, others k_ia32_pm_enable (omega arith), low, third) refl
