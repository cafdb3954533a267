-- ===== src/CorruptCores/Tests.antt =====
-- Tests of the analyzer, and its theorems at concrete inputs.
use Prim.Native.String.{String}
use Prim.Native.Char.{code}
use cpu_check.Base.{
  ℕ, ◌≡◌, refl, ◌↔◌, ◌⊎◌, Bool, true, false, ◌||◌, List, [], ◌∷◌, ◌++◌, ◌<◌, arith,
}
use cpu_check.Base.Stream.{extract_int, skip_blanks}
use cpu_check.CorruptCores.{
  BadCore, Verdict, cores, new_bad_core, condemn_tid, accuse, contains, accusation_count, dispose,
  dispose_worst, scan_core, scan_cores, condemn_worst, condemn_loop, condemn, tid_to_canonical_core,
}
use cpu_check.CorruptCores.Flags.{default_machine, read_flags}
use cpu_check.Base.Int.{pos}
use cpu_check.Base.{some, none}
use cpu_check.CorruptCores.Greedy.{IsWorst, condemn_worst_lem}
use cpu_check.CorruptCores.Condemn.{IsSettled}
use cpu_check.CorruptCores.Input.{process_line, read_log, analyze, analyze-IsSettled}
use cpu_check.CorruptCores.Report.{canonical_core_to_string, condemnations, named, core_name_lem}

abbrev chars : String → List ℕ
chars String.[] = []
chars (String.◌∷◌ c s) = code c ∷ chars s

-- Two sockets of 28 cores. Thread 61 is the second one of core 5.
abbrev log : List (List ℕ)
log = chars "3 5" ∷ chars "61" ∷ chars "5   7" ∷ chars "oops" ∷ chars "112" ∷ chars " 9  " ∷ []

log_condemns :
    condemnations (analyze 2 28 log)
    ≡ named false (
        (record { socket = 0; ht_1 = 5; ht_2 = 61 }, 3)
        ∷ (record { socket = 0; ht_1 = 9; ht_2 = 65 }, 1)
        ∷ [])
unfolding condemnations analyze read_log new_bad_core process_line extract_int skip_blanks
    condemn_tid accuse contains accusation_count dispose scan_core scan_cores condemn_worst
    condemn_loop condemn canonical_core_to_string
log_condemns = refl

-- Cores 1 and 2 are accused as often, so the verdict is ambiguous.
abbrev split : BadCore
split = record {
  sockets = 1;
  cores_per_socket = 4;
  accused = (1 ∷ 2 ∷ []) ∷ (2 ∷ 1 ∷ []) ∷ [];
  condemned = [];
  ambiguous = false;
}

condemn_worst_lem_example :
    (v : Verdict) × (tied : Bool) × IsWorst
      (λ d. accusation_count d split.accused)
      (cores split)
      v
      tied
    × (condemn_worst split ≡ record split {
      ambiguous = split.ambiguous || tied;
      condemned = split.condemned ++ v ∷ [];
      accused = dispose_worst v split.accused;
    })
condemn_worst_lem_example = condemn_worst_lem split

split_is_ambiguous : (condemn split).ambiguous ≡ true
unfolding condemn condemn_loop condemn_worst scan_cores scan_core accusation_count contains dispose
split_is_ambiguous = refl

analyze-IsSettled_example : IsSettled (read_log (new_bad_core 2 28) log) (analyze 2 28 log)
analyze-IsSettled_example = analyze-IsSettled 2 28 log

core_name_lem_example :
    ((canonical_core_to_string split 2).socket < split.sockets)
    × ((tid_to_canonical_core split 6 ≡ 2) ↔ (
        (6 ≡ (canonical_core_to_string split 2).ht_1)
        ⊎ (6 ≡ (canonical_core_to_string split 2).ht_2)))
core_name_lem_example = core_name_lem split 2 6 (omega arith) (omega arith)

-- The second argument sets only the cores; a letter with no number, and an unknown letter, show the
-- usage message.
some_flags :
    (read_flags (chars "-s1" ∷ chars "-c14x" ∷ chars "-" ∷ []) default_machine
      ≡ some (record { sockets = pos 1; cores_per_socket = pos 14 }))
    × (read_flags (chars "-s" ∷ []) default_machine ≡ none)
    × (read_flags (chars "-q1" ∷ []) default_machine ≡ none)
    × (read_flags (chars "28" ∷ []) default_machine ≡ none)
unfolding read_flags extract_int
some_flags = (refl, refl, refl, refl)
