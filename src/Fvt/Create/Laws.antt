-- ===== src/Fvt/Create/Laws.antt =====
-- Which controller is made.
use cpu_check.Base.{
  ℕ, ◌≡◌, ◌<◌, ◌^◌, refl, true, false, none, some, List, [], ◌∷◌, arith, Bool-cases, inl, inr,
}
use cpu_check.Base.Bytes.{le_bytes}
use cpu_check.Base.Outcome.{done, fatal, ◌>>=◌}
use cpu_check.Fvt.Create.{
  CpuidResult, Platform, intel_vendor_string, same_string, vendor_string_of, get_cpuid,
  cpuid_vendor_string, cpuid_vendor_string_uncached, new_intel_fvt_controller, create,
}

-- Registers of 32 bits.
pub record IsRegisters (r : CpuidResult) : Type 0 where
  pub ebx_small : r.ebx < 2 ^ 32
  pub ecx_small : r.ecx < 2 ^ 32
  pub edx_small : r.edx < 2 ^ 32

-- The registers that the manual of the processor gives for an Intel processor.
pub record IsGenuine (r : CpuidResult) : Type 0 where
  pub genu : r.ebx ≡ 0x756e6547
  pub inei : r.edx ≡ 0x49656e69
  pub ntel : r.ecx ≡ 0x6c65746e

same_string-eq : (xs ys : List ℕ) → same_string xs ys ≡ true → xs ≡ ys
same_string-eq [] [] h = refl
same_string-eq [] (y ∷ ys) h = absurd (cc)
same_string-eq (x ∷ xs) [] h = absurd (cc)
same_string-eq (x ∷ xs) (y ∷ ys) h = ground (arith, same_string-eq xs ys)

IsGenuine-string : (r : CpuidResult) → IsGenuine r → vendor_string_of r ≡ intel_vendor_string
unfolding vendor_string_of le_bytes
IsGenuine-string r g = rw (g.genu, g.inei, g.ntel) refl

string-IsGenuine :
    (r : CpuidResult) → IsRegisters r → vendor_string_of r ≡ intel_vendor_string → IsGenuine r
unfolding vendor_string_of le_bytes
string-IsGenuine r small e = record {
  genu = ground arith;
  inei = ground arith;
  ntel = ground arith;
}

vendor_string_read :
    (p : Platform) (r : CpuidResult)
    → p.cpuid 0 0 ≡ some r
    → cpuid_vendor_string p none ≡ done (vendor_string_of r, some (vendor_string_of r))
unfolding cpuid_vendor_string cpuid_vendor_string_uncached get_cpuid
vendor_string_read p r reads = rw (reads, get_cpuid) refl

intel-same : same_string intel_vendor_string intel_vendor_string ≡ true
intel-same = refl

-- On a processor of the x86 family, with the code for Intel processors only, and a first call: the
-- controller of an Intel processor is made if CPUID gives the three registers of one, and any others
-- are fatal.
pub create_lem :
    (p : Platform) (now cpu : ℕ) (r : CpuidResult)
    → p.is_x86 ≡ true
    → p.vendors_intel ≡ true
    → p.vendors_amd ≡ false
    → p.cpuid 0 0 ≡ some r
    → IsRegisters r
    → (IsGenuine r
        → create p now cpu none
          ≡ (new_intel_fvt_controller p now cpu >>= λ c. done (c, some intel_vendor_string)))
      × (¬ IsGenuine r → create p now cpu none ≡ fatal)
unfolding create
create_lem p now cpu r x86 intel no_amd reads small = (
  λ genuine. simp (vendor_string_read p r reads, x86, intel, IsGenuine-string r genuine) refl,
  λ other. elim (Bool-cases (same_string (vendor_string_of r) intel_vendor_string)) [
    | inl same ↦ absurd (other (string-IsGenuine r small (same_string-eq _ _ same)))
    | inr differs ↦ simp (vendor_string_read p r reads, x86, intel, no_amd, differs) refl
  ],
)
