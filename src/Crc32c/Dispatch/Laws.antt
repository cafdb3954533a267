-- ===== src/Crc32c/Dispatch/Laws.antt =====
-- What the dispatcher promises.
use Prim.Native.String.{String}
use text.Mathlib.TextEquality.{eq_iff}
use cpu_check.Base.{
  ℕ, zero, suc, ◌+◌, ◌≤◌, ◌≡◌, refl, ◌↔◌, ◌≢◌, true, Option, none, some, List, [], ◌∷◌, ltb, slice,
  arith, inl, inr, Bool-cases, ==_iff, All, ◌⊎◌,
}
use cpu_check.Base.Int.{pos, negsuc}
use cpu_check.Base.Bytes.{IsBytes, take-IsBytes, drop-IsBytes}
use cpu_check.Crc32c.{crc32c_sw, crc32c_hw}
use cpu_check.Crc32c.Hardware.{IsFaultless, crc32c_hw-eq-crc32c_sw}
use cpu_check.Crc32c.Dispatch.{
  hw, sw, Dispatch, Machine, start, run_once, crc32c_impl_name, crc32c_force_software, crc32c,
  k_vec, pattern_from, pattern_size, offsets, lengths, compare_on, check_lengths, check_offsets,
  selfcheck_failures, crc32c_selfcheck, Call, name, force, selfcheck, checksum, step, run,
}

-- The state that a forced software path leaves.
record IsSoftware (d : Dispatch) : Type 0 where
  done : d.once ≡ true
  software : d.impl ≡ sw

force-IsSoftware : (m : Machine) (d : Dispatch) → IsSoftware (crc32c_force_software m d)
unfolding crc32c_force_software run_once
force-IsSoftware m d = ground arith

step-IsSoftware : (m : Machine) (d : Dispatch) (c : Call) → IsSoftware d → IsSoftware (step m d c)
unfolding step crc32c_impl_name crc32c crc32c_selfcheck run_once
step-IsSoftware m d name h = ground arith
step-IsSoftware m d force h = force-IsSoftware m d
step-IsSoftware m d selfcheck h = ground arith
step-IsSoftware m d (checksum s) h = ground arith

run-IsSoftware :
    (m : Machine) (d : Dispatch) (cs : List Call) → IsSoftware d → IsSoftware (run m d cs)
unfolding run
run-IsSoftware m d [] h = h
run-IsSoftware m d (c ∷ cs) h = run-IsSoftware m (step m d c) cs (step-IsSoftware m d c h)

checksum-IsSoftware :
    (m : Machine) (d : Dispatch) (s : List ℕ) → IsSoftware d → (crc32c m d s).1 ≡ crc32c_sw s
unfolding crc32c run_once
checksum-IsSoftware m d s h = ground arith

-- After `crc32c_force_software` every later checksum, whatever calls come between and whatever the
-- CRC32 instruction does, is the one of the software routine.
pub crc32c-force_software :
    (m : Machine) (d : Dispatch) (cs : List Call) (s : List ℕ)
    → (crc32c m (run m (crc32c_force_software m d) cs) s).1 ≡ crc32c_sw s
crc32c-force_software m d cs s =
    checksum-IsSoftware m _ s (run-IsSoftware m _ cs (force-IsSoftware m d))

-- The first call picks the hardware exactly when the CPU has the instruction and the variable
-- CRC32C_FORCE is not "sw".
pub run_once-impl :
    (m : Machine)
    → ((run_once m start).impl ≡ hw) ↔ ((m.has_hw_crc ≡ true) × (m.crc32c_force ≢ some "sw"))
unfolding run_once
run_once-impl m = go m.crc32c_force refl
  where
    go :
        (o : Option String)
        → m.crc32c_force ≡ o
        → ((run_once m start).impl ≡ hw) ↔ ((m.has_hw_crc ≡ true) × (m.crc32c_force ≢ some "sw"))
    go none e = ground arith
    go (some env) e = ground (arith, eq_iff env "sw", eq_iff env "hw")

-- The self-check's loops count mismatches only.
compare_on_mono : (m : Machine) (s : List ℕ) (k : ℕ) → k ≤ compare_on m s k
unfolding compare_on
compare_on_mono m s k = ground arith

check_lengths_mono :
    (m : Machine) (buf : List ℕ) (off : ℕ) (ls : List ℕ) (k : ℕ) → k ≤ check_lengths m buf off ls k
unfolding check_lengths
check_lengths_mono m buf off [] k = omega arith
check_lengths_mono m buf off (len ∷ ls) k = elim (Bool-cases (ltb pattern_size (off + len))) [
  | inl long ↦ rw long (check_lengths_mono m buf off ls k)
  | inr fits ↦ rw fits (
      omega (
        arith,
        check_lengths_mono m buf off ls (compare_on m (slice buf off len) k),
        compare_on_mono m (slice buf off len) k,
      ))
]

check_offsets_mono : (m : Machine) (buf ls os : List ℕ) (k : ℕ) → k ≤ check_offsets m buf ls os k
unfolding check_offsets
check_offsets_mono m buf ls [] k = omega arith
check_offsets_mono m buf ls (off ∷ os) k = omega (
  arith,
  check_offsets_mono m buf ls os (check_lengths m buf off ls k),
  check_lengths_mono m buf off ls k,
)

-- The two routines agree on a buffer.
abbrev Agree : Machine → List ℕ → Type 0
Agree m s = crc32c_hw m.unit s ≡ crc32c_sw s

compare_on-zero : (m : Machine) (s : List ℕ) (k : ℕ) → compare_on m s k ≡ 0 → Agree m s × (k ≡ 0)
unfolding compare_on
compare_on-zero m s k h = ground arith

check_lengths-zero :
    (m : Machine) (buf : List ℕ) (off : ℕ) (ls : List ℕ) (k : ℕ)
    → check_lengths m buf off ls k ≡ 0
    → All (λ len. off + len ≤ pattern_size → Agree m (slice buf off len)) ls
unfolding check_lengths
check_lengths-zero m buf off [] k h = tt
check_lengths-zero m buf off (len ∷ ls) k h = (
  λ fits. ground (
    arith,
    compare_on-zero m (slice buf off len) k,
    check_lengths_mono m buf off ls (compare_on m (slice buf off len) k),
  ),
  check_lengths-zero m buf off ls _ h,
)

check_lengths-Agree :
    (m : Machine) (buf : List ℕ) (off : ℕ) (ls : List ℕ)
    → ((n : ℕ) → Agree m (slice buf off n))
    → check_lengths m buf off ls 0 ≡ 0
unfolding check_lengths compare_on
check_lengths-Agree m buf off [] h = refl
check_lengths-Agree m buf off (len ∷ ls) h = elim (Bool-cases (ltb pattern_size (off + len))) [
  | inl long ↦ rw long (check_lengths-Agree m buf off ls h)
  | inr fits ↦ rw (fits, (==_iff _ _).1 (h len)) (check_lengths-Agree m buf off ls h)
]

check_offsets-zero :
    (m : Machine) (buf ls os : List ℕ) (k : ℕ)
    → check_offsets m buf ls os k ≡ 0
    → All (λ off. All (λ len. off + len ≤ pattern_size → Agree m (slice buf off len)) ls) os
unfolding check_offsets
check_offsets-zero m buf ls [] k h = tt
check_offsets-zero m buf ls (off ∷ os) k h = (
  check_lengths-zero m buf off ls k
      (omega (arith, check_offsets_mono m buf ls os (check_lengths m buf off ls k))),
  check_offsets-zero m buf ls os _ h,
)

check_offsets-Agree :
    (m : Machine) (buf ls os : List ℕ)
    → ((off n : ℕ) → Agree m (slice buf off n))
    → check_offsets m buf ls os 0 ≡ 0
unfolding check_offsets
check_offsets-Agree m buf ls [] h = refl
check_offsets-Agree m buf ls (off ∷ os) h =
    rw (check_lengths-Agree m buf off ls (h off)) (check_offsets-Agree m buf ls os h)

-- The test buffer of the self-check.
abbrev test_buffer : List ℕ
test_buffer = pattern_from pattern_size 0

pattern_from-IsBytes : (n i : ℕ) → IsBytes (pattern_from n i)
unfolding pattern_from
pattern_from-IsBytes zero i = tt
pattern_from-IsBytes (suc n) i = (omega arith, pattern_from-IsBytes n (i + 1))

failures_zero :
    (m : Machine)
    → selfcheck_failures m ≡ 0
    → Agree m k_vec
      × All
          (λ off.
            All (λ len. off + len ≤ pattern_size → Agree m (slice test_buffer off len)) lengths)
          offsets
unfolding selfcheck_failures
failures_zero m h = (
  (compare_on-zero m k_vec 0
      (omega (arith, check_offsets_mono m test_buffer lengths offsets (compare_on m k_vec 0)))).0,
  check_offsets-zero m test_buffer lengths offsets (compare_on m k_vec 0) h,
)

failures-faultless : (m : Machine) → IsFaultless m.unit → selfcheck_failures m ≡ 0
unfolding selfcheck_failures
failures-faultless m f =
    let vector : compare_on m k_vec 0 ≡ 0 =
      unfold compare_on in
      rw ((==_iff _ _).1 (crc32c_hw-eq-crc32c_sw m.unit k_vec f (omega arith))) in
    rw vector (check_offsets-Agree m test_buffer lengths offsets agree)
  where
    agree : (off n : ℕ) → Agree m (slice test_buffer off n)
    agree off n =
        crc32c_hw-eq-crc32c_sw m.unit _ f
          (take-IsBytes n _ (drop-IsBytes off _ (pattern_from-IsBytes pattern_size 0)))

-- On a faultless CPU the self-check passes and leaves the implementation as the first call chose
-- it, and every checksum after it is the one of the software routine.
pub selfcheck-faultless :
    (m : Machine) (d : Dispatch) → IsFaultless m.unit → crc32c_selfcheck m d ≡ (run_once m d, pos 0)
unfolding crc32c_selfcheck
selfcheck-faultless m d f = ground (arith, failures-faultless m f)

selfcheck_cases :
    (m : Machine) (d : Dispatch)
    → (crc32c_selfcheck m d ≡ (crc32c_force_software m (run_once m d), negsuc 0))
      ⊎ ((crc32c_selfcheck m d ≡ (run_once m d, pos 0))
          × ((run_once m d).impl ≡ hw → selfcheck_failures m ≡ 0))
unfolding crc32c_selfcheck
selfcheck_cases m d = ground arith

-- A failed self-check, one that returns -1, forces the software path for good: after it every
-- checksum, whatever calls come between, is the one of the software routine.
pub selfcheck_failed :
    (m : Machine) (d : Dispatch) (cs : List Call) (s : List ℕ)
    → (crc32c_selfcheck m d).1 ≡ negsuc 0
    → (crc32c m (run m (crc32c_selfcheck m d).0 cs) s).1 ≡ crc32c_sw s
selfcheck_failed m d cs s h = elim (selfcheck_cases m d) [
  | inl failed ↦ rw failed (crc32c-force_software m (run_once m d) cs s)
  | inr (passed, _) ↦ cc
]

-- A self-check that returns 0 leaves the state of the first call, and if the hardware is then in
-- use the two routines agree on the known vector and on each slice of the test buffer that the
-- tables of offsets and lengths name.
pub selfcheck_passed :
    (m : Machine) (d : Dispatch)
    → (crc32c_selfcheck m d).1 ≡ pos 0
    → ((crc32c_selfcheck m d).0 ≡ run_once m d)
      × ((run_once m d).impl ≡ hw
          → Agree m k_vec
            × All
                (λ off.
                  All
                    (λ len. off + len ≤ pattern_size → Agree m (slice test_buffer off len))
                    lengths)
                offsets)
selfcheck_passed m d h = elim (selfcheck_cases m d) [
  | inl failed ↦ cc
  | inr (passed, none_failed) ↦ (rw passed, λ hard. failures_zero m (none_failed hard))
]
