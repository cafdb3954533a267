-- ===== src/CorruptCores/Report.antt =====
-- What the analyzer prints: `Condemnations` and `CanonicalCoreToString`, as the numbers that stand
-- in the text.
use cpu_check.Base.{
  ℕ, zero, suc, ◌+◌, ◌*◌, ◌/◌, ◌%◌, ◌<◌, ◌≡◌, sym, ◌∙◌, ◌-◌, dec_lt, ◌⊎◌, ◌↔◌, Bool, none, some,
  List, [], ◌∷◌, arith, inl, inr,
}
use cpu_check.CorruptCores.{BadCore, cores, Verdict, tid_to_canonical_core}
use native.Mathlib.Nat.{div-lt_iff_lt-mul, mod-eq_of_lt, mod-eq-sub-mod}

-- "CPU<socket> HT<ht_1>-<ht_2>".
pub record CoreName : Type 0 where
  pub socket : ℕ
  pub ht_1 : ℕ
  pub ht_2 : ℕ

unfoldable pub canonical_core_to_string : BadCore → ℕ → CoreName
canonical_core_to_string b core = record {
  socket = core / b.cores_per_socket;
  ht_1 = core;
  ht_2 = core + cores b;
}

-- "None", or the cores with their counts behind the mark of an ambiguous run.
pub data Report : Type 0 where
  nobody : Report
  named : Bool → List (CoreName × ℕ) → Report

-- A verdict with no core is not met (`condemn-IsSettled` has the counts of all rounds add up).
names : BadCore → List Verdict → List (CoreName × ℕ)
names b [] = []
names b (none ∷ cs) = names b cs
names b (some (w, k) ∷ cs) = (canonical_core_to_string b w, k) ∷ names b cs

unfoldable pub condemnations : BadCore → Report
unfolding names
condemnations b = elim b.condemned [ [] ↦ nobody | c ∷ cs ↦ named b.ambiguous (names b (c ∷ cs)) ]

pos_right : (a b c : ℕ) → c < a * b → 0 < b
pos_right a zero c h = absurd (omega arith)
pos_right a (suc b) c h = omega arith

mod_twice : (t n c : ℕ) → t < 2 * n → t % n ≡ c → (t ≡ c) ⊎ (t ≡ c + n)
mod_twice t n c h e = elim (dec_lt t n) [
  | yes p ↦ inl (sym (mod-eq_of_lt p) ∙ e)
  | no p ↦ inr (
      omega (
        arith,
        mod-eq-sub-mod {n = t} {m = n} (omega arith),
        mod-eq_of_lt {n = t - n} {m = n} (omega arith),
      ))
]

-- The name that is printed for a core has an existing socket, and its two threads are exactly the
-- plausible tids that stand for the core.
pub core_name_lem :
    (b : BadCore) (core tid : ℕ)
    → core < cores b
    → tid < 2 * cores b
    → ((canonical_core_to_string b core).socket < b.sockets)
      × ((tid_to_canonical_core b tid ≡ core) ↔ (
          (tid ≡ (canonical_core_to_string b core).ht_1)
          ⊎ (tid ≡ (canonical_core_to_string b core).ht_2)))
unfolding canonical_core_to_string
core_name_lem b core tid h below =
    ((div-lt_iff_lt-mul (pos_right b.sockets b.cores_per_socket core h)).1 h, (there, back))
  where
    there : tid % cores b ≡ core → (tid ≡ core) ⊎ (tid ≡ core + cores b)
    there e = mod_twice tid (cores b) core below e

    back : (tid ≡ core) ⊎ (tid ≡ core + cores b) → tid % cores b ≡ core
    back (inl e) = rw e (mod-eq_of_lt h)
    back (inr e) = rw e (mod-eq-sub-mod (omega arith) ∙ (rw same (mod-eq_of_lt h)))
      where
        same : core + cores b - cores b ≡ core
        same = omega arith
