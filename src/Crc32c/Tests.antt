-- ===== src/Crc32c/Tests.antt =====
-- Tests of crc32c.c, and its theorems at concrete inputs.
use cpu_check.Base.{◌≡◌, refl, ap, true, none, arith, All, slice, ◌+◌, ◌≤◌}
use cpu_check.Base.Int.{ℤ, pos, negsuc}
use cpu_check.Base.Bytes.{load_le, le_bytes}
use cpu_check.Crc32c.{Crc32Unit, crc_byte, crc_bytes, crc32c_sw, crc32c_hw}
use cpu_check.Crc32c.Hardware.{IsFaultless, crc32c_hw-eq-crc32c_sw}
use cpu_check.Crc32c.Dispatch.{
  Dispatch, Machine, start, hw, k_vec, run_once, crc32c_selfcheck, selfcheck_failures, compare_on,
  check_lengths, check_offsets, pattern_from, offsets, lengths, pattern_size,
}
use cpu_check.Crc32c.Dispatch.Laws.{selfcheck-faultless, selfcheck_passed}

-- A unit that does what is documented, and one whose byte operand is broken.
abbrev sound_unit : Crc32Unit
sound_unit = record {
  crc32_u8 = crc_byte;
  crc32_u16 = λ h v. crc_bytes h (le_bytes 2 v);
  crc32_u32 = λ h v. crc_bytes h (le_bytes 4 v);
  crc32_u64 = λ h v. crc_bytes h (le_bytes 8 v);
}

abbrev broken_unit : Crc32Unit
broken_unit = record sound_unit { crc32_u8 = λ h b. h }

sound_unit-IsFaultless : IsFaultless sound_unit
sound_unit-IsFaultless = record {
  adds_u8 = λ h b p q. refl;
  adds_u16 = λ h v p q. refl;
  adds_u32 = λ h v p q. refl;
  adds_u64 = λ h v p q. refl;
}

abbrev sound : Machine
sound = record { crc32c_force = none; has_hw_crc = true; unit = sound_unit }

abbrev broken : Machine
broken = record sound { unit = broken_unit }

-- The known vector of crc32c_test.cc.
known_vector : crc32c_sw k_vec ≡ 0xe3069283
unfolding crc32c_sw
known_vector = refl

known_vector_hw : crc32c_hw sound_unit k_vec ≡ 0xe3069283
unfolding crc32c_hw crc_byte crc_bytes load_le le_bytes
known_vector_hw = refl

crc32c_hw-eq-crc32c_sw_example : crc32c_hw sound_unit k_vec ≡ crc32c_sw k_vec
crc32c_hw-eq-crc32c_sw_example =
    crc32c_hw-eq-crc32c_sw sound_unit k_vec sound_unit-IsFaultless (omega arith)

broken_fails : (crc32c_selfcheck broken start).1 ≡ negsuc 0
unfolding crc32c_selfcheck run_once selfcheck_failures compare_on check_lengths check_offsets
    pattern_from offsets lengths crc32c_sw crc32c_hw load_le le_bytes
broken_fails = refl

sound_passes : (crc32c_selfcheck sound start).1 ≡ pos 0
sound_passes =
    ap (λ (r : Dispatch × ℤ). r.1) (selfcheck-faultless sound start sound_unit-IsFaultless)

selfcheck_passed_example :
    ((crc32c_selfcheck sound start).0 ≡ run_once sound start)
    × ((run_once sound start).impl ≡ hw
        → (crc32c_hw sound_unit k_vec ≡ crc32c_sw k_vec)
          × All
              (λ off.
                All
                  (λ len.
                    off + len ≤ pattern_size
                    → crc32c_hw sound_unit (slice (pattern_from pattern_size 0) off len)
                      ≡ crc32c_sw (slice (pattern_from pattern_size 0) off len))
                  lengths)
              offsets)
selfcheck_passed_example = selfcheck_passed sound start sound_passes
