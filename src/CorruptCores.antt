-- ===== src/CorruptCores.antt =====
-- corrupt_cores.cc: the analyzer that condemns cores from the tids of a failure log.
-- `sockets` and `cores_per_socket` are taken to be nonnegative, and their product, like the counts,
-- to fit an `int`. Log output is left out.
pub mod Greedy
pub mod Condemn
pub mod Input
pub mod Flags
pub mod Report
pub mod Tests
use cpu_check.Base.{
  ℕ, zero, suc, ◌+◌, ◌*◌, ◌/◌, ◌%◌, Bool, true, false, ◌||◌, Option, none, some, List, [], ◌∷◌,
  ◌++◌, ltb, ◌==◌, if◌then◌else◌, length,
}

-- `worst_` and its count, before it is printed; `none` is the pair (-1, -1).
abbrev pub Verdict : Type 0
Verdict = Option (ℕ × ℕ)

pub record BadCore : Type 0 where
  pub sockets : ℕ
  pub cores_per_socket : ℕ
  pub accused : List (List ℕ)
  pub condemned : List Verdict
  pub ambiguous : Bool

unfoldable pub new_bad_core : ℕ → ℕ → BadCore
new_bad_core sockets cores_per_socket = record {
  sockets = sockets;
  cores_per_socket = cores_per_socket;
  accused = [];
  condemned = [];
  ambiguous = false;
}

abbrev pub cores : BadCore → ℕ
cores b = b.sockets * b.cores_per_socket

abbrev pub tid_to_canonical_core : BadCore → ℕ → ℕ
tid_to_canonical_core b tid = tid % cores b

-- `Condemn(tid)`.
unfoldable pub condemn_tid : BadCore → ℕ → BadCore
condemn_tid b tid = record b { accused = b.accused ++ (tid_to_canonical_core b tid ∷ []) ∷ [] }

unfoldable pub accuse : BadCore → ℕ → ℕ → BadCore
accuse b tid_1 tid_2 = record b {
  accused = b.accused ++ (tid_to_canonical_core b tid_1 ∷ tid_to_canonical_core b tid_2 ∷ []) ∷ [];
}

-- `std::find(v.begin(), v.end(), c) != v.end()`.
unfoldable pub contains : ℕ → List ℕ → Bool
contains c [] = false
contains c (x ∷ v) = x == c || contains c v

unfoldable pub accusation_count : ℕ → List (List ℕ) → ℕ
accusation_count c [] = 0
accusation_count c (v ∷ vs) = let k = accusation_count c vs in if contains c v then suc k else k

unfoldable pub dispose : ℕ → List (List ℕ) → List (List ℕ)
dispose c [] = []
dispose c (v ∷ vs) = let temp = dispose c vs in if contains c v then temp else v ∷ temp

-- The variables of `CondemnWorst`.
pub record Scan : Type 0 where
  pub worst : Verdict
  pub tied : Bool

-- The body of its loop at core `c`, which `k` accusations name.
unfoldable pub scan_core : ℕ → ℕ → Scan → Scan
scan_core c k st = if k == 0 then st else elim st.worst [
  | none ↦ record { worst = some (c, k); tied = false }
  | some (w, worst_k) ↦
      if ltb worst_k k
      then record { worst = some (c, k); tied = false }
      else if k == worst_k
      then record st { tied = true }
      else st
]

-- The loop from core `c` on, with `n` rounds left.
unfoldable pub scan_cores : List (List ℕ) → ℕ → ℕ → Scan → Scan
scan_cores vs zero c st = st
scan_cores vs (suc n) c st = scan_cores vs n (c + 1) (scan_core c (accusation_count c vs) st)

abbrev pub fresh : Scan
fresh = record { worst = none; tied = false }

-- No accusation names core -1.
pub dispose_worst : Verdict → List (List ℕ) → List (List ℕ)
dispose_worst none vs = vs
dispose_worst (some (w, k)) vs = dispose w vs

unfoldable pub condemn_worst : BadCore → BadCore
unfolding dispose_worst
condemn_worst b =
    let st = scan_cores b.accused (cores b) 0 fresh in
    record b {
      ambiguous = b.ambiguous || st.tied;
      condemned = b.condemned ++ st.worst ∷ [];
      accused = dispose_worst st.worst b.accused;
    }

-- `while (!accused_.empty()) CondemnWorst();`
unfoldable pub condemn_loop : ℕ → BadCore → BadCore
condemn_loop zero b = b
condemn_loop (suc fuel) b = elim b.accused [ [] ↦ b | v ∷ vs ↦ condemn_loop fuel (condemn_worst b) ]

-- `Condemn()`. A round disposes of an accusation, so the fuel is their number.
unfoldable pub condemn : BadCore → BadCore
condemn b = condemn_loop (length b.accused) b
