-- ===== src/Fvt/Create.antt =====
-- fvt_controller.cc: the vendor of the processor, and the controller that is made for it. The CPUID
-- device of the kernel is a parameter, and so are the controllers of vendors whose code is not here.
pub mod Laws
use cpu_check.Base.{
  ℕ, ◌+◌, Bool, Option, none, some, true, false, List, [], ◌∷◌, ◌++◌, ◌==◌, ◌&&◌, not,
  if◌then◌else◌,
}
use cpu_check.Base.Bytes.{le_bytes}
use cpu_check.Base.Int.{ℤ, pos}
use cpu_check.Base.Outcome.{Outcome, done, fatal, ◌>>=◌}
use cpu_check.Fvt.{
  Controller, new_controller, set_current_max_freq_mhz, absolute_freq_limit_mhz,
  current_freq_limit_mhz, current_freq_mhz, control_fast_string_ops,
}
use cpu_check.Fvt.Status.{Fvt, fvt, Enable, interesting_enables, power_managed}

-- `CPUIDResult`, registers of 32 bits.
pub record CpuidResult : Type 0 where
  pub eax : ℕ
  pub ebx : ℕ
  pub ecx : ℕ
  pub edx : ℕ

-- What the code is built for and runs on. `cpuid cpu eax` is what is read from the device; `none` if
-- it cannot be opened or the read is short.
pub record Platform : Type 0 where
  pub is_x86 : Bool
  pub vendors_intel : Bool
  pub vendors_amd : Bool
  pub cpuid : ℕ → ℕ → Option CpuidResult
  pub processor : ℕ → Controller

-- "GenuineIntel" and "AuthenticAMD".
abbrev pub intel_vendor_string : List ℕ
intel_vendor_string =
    b'G' ∷ b'e' ∷ b'n' ∷ b'u' ∷ b'i' ∷ b'n' ∷ b'e' ∷ b'I' ∷ b'n' ∷ b't' ∷ b'e' ∷ b'l' ∷ []

abbrev pub amd_vendor_string : List ℕ
amd_vendor_string =
    b'A' ∷ b'u' ∷ b't' ∷ b'h' ∷ b'e' ∷ b'n' ∷ b't' ∷ b'i' ∷ b'c' ∷ b'A' ∷ b'M' ∷ b'D' ∷ []

-- `operator==` on strings.
abbrev pub same_string : List ℕ → List ℕ → Bool
same_string [] [] = true
same_string [] (y ∷ ys) = false
same_string (x ∷ xs) [] = false
same_string (x ∷ xs) (y ∷ ys) = x == y && same_string xs ys

unfoldable pub get_cpuid : Platform → ℕ → ℕ → Outcome CpuidResult
get_cpuid p cpu eax = elim (p.cpuid cpu eax) [ none ↦ fatal | some r ↦ done r ]

-- The twelve bytes of the buffer.
unfoldable pub vendor_string_of : CpuidResult → List ℕ
vendor_string_of r = le_bytes 4 r.ebx ++ (le_bytes 4 r.edx ++ le_bytes 4 r.ecx)

unfoldable pub cpuid_vendor_string_uncached : Platform → Outcome (List ℕ)
unfolding get_cpuid vendor_string_of
cpuid_vendor_string_uncached p = get_cpuid p 0 0 >>= λ r. done (vendor_string_of r)

-- The `static` string is filled by the first call.
unfoldable pub cpuid_vendor_string : Platform → Option (List ℕ) → Outcome (List ℕ × Option (List ℕ))
unfolding cpuid_vendor_string_uncached
cpuid_vendor_string p (some s) = done (s, some s)
cpuid_vendor_string p none = cpuid_vendor_string_uncached p >>= λ s. done (s, some s)

pub data FvtController : Type 0 where
  intel : Controller → FvtController
  amd non_x86 : ℕ → FvtController

-- `NewIntelFVTController`.
unfoldable pub new_intel_fvt_controller : Platform → ℕ → ℕ → Outcome FvtController
new_intel_fvt_controller p now cpu = new_controller now (p.processor cpu) >>= λ c. done (intel c)

-- `Create` at time `now`, with the cached vendor string.
unfoldable pub create :
    Platform → ℕ → ℕ → Option (List ℕ) → Outcome (FvtController × Option (List ℕ))
unfolding cpuid_vendor_string new_intel_fvt_controller
create p now cpu cache =
    if p.is_x86
    then (cpuid_vendor_string p cache >>= λ (vendor_string, cache').
        if p.vendors_intel && same_string vendor_string intel_vendor_string
        then (new_intel_fvt_controller p now cpu >>= λ c. done (c, cache'))
        else if p.vendors_amd && same_string vendor_string amd_vendor_string
        then done (amd cpu, cache')
        else fatal)
    else done (non_x86 cpu, cache)

-- The virtual functions; those of `NonX86FVTController` log a fatal message. `none` is code that is
-- not here.
unfoldable pub set_current_freq_limit_mhz : ℕ → ℤ → FvtController → Option (Outcome FvtController)
set_current_freq_limit_mhz now mhz (intel c) =
    some (set_current_max_freq_mhz now mhz c >>= λ c'. done (intel c'))
set_current_freq_limit_mhz now mhz (amd cpu) = none
set_current_freq_limit_mhz now mhz (non_x86 cpu) = some fatal

-- A function that only reads.
abbrev pub asks : {A : Type 0} → (Controller → A) → FvtController → Option (Outcome A)
asks f (intel c) = some (done (f c))
asks f (amd cpu) = none
asks f (non_x86 cpu) = some fatal

unfoldable pub get_absolute_freq_limit_mhz : FvtController → Option (Outcome ℕ)
get_absolute_freq_limit_mhz = asks absolute_freq_limit_mhz

unfoldable pub get_current_freq_limit_mhz : FvtController → Option (Outcome ℕ)
get_current_freq_limit_mhz = asks current_freq_limit_mhz

unfoldable pub get_current_freq_mhz : FvtController → Option (Outcome ℕ)
get_current_freq_mhz = asks current_freq_mhz

unfoldable pub is_power_managed : FvtController → Option (Outcome Bool)
is_power_managed = asks power_managed

unfoldable pub get_fvt : FvtController → Option (Outcome Fvt)
get_fvt = asks fvt

unfoldable pub get_interesting_enables : FvtController → Option (Outcome (List Enable))
get_interesting_enables = asks interesting_enables

unfoldable pub set_fast_string_ops : Bool → FvtController → Option (Outcome FvtController)
set_fast_string_ops enable = asks (λ c. intel (control_fast_string_ops enable c))
