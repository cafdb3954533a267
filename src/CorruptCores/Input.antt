-- ===== src/CorruptCores/Input.antt =====
-- The main loop of corrupt_cores.cc: each line of the input condemns a thread or accuses two.
use cpu_check.Base.{
  ℕ, ◌*◌, ◌%◌, ◌<◌, ◌≡◌, Bool, true, false, List, [], ◌∷◌, ltb, if◌then◌else◌, arith, All, All-snoc,
  Bool-cases, inl, inr,
}
use cpu_check.Base.Int.{ℤ, pos, negsuc}
use cpu_check.Base.Stream.{Extracted, got, extract_int, skip_blanks}
use cpu_check.CorruptCores.{BadCore, new_bad_core, cores, condemn_tid, accuse, contains, condemn}
use cpu_check.CorruptCores.Condemn.{Accuses, IsSettled, condemn-IsSettled}
use native.Mathlib.Nat.{mod-lt}

abbrev pub plausible : BadCore → ℤ → Bool
plausible b (pos tid) = ltb tid (2 * b.sockets * b.cores_per_socket)
plausible b (negsuc n) = false

-- The second number of a line, after a plausible first one.
second : BadCore → ℕ → Extracted → BadCore
second b tid_1 (got (pos tid_2) rest) = if plausible b (pos tid_2) then accuse b tid_1 tid_2 else b
second b tid_1 _ = b

-- After the first number and the blanks that follow it.
after_first : BadCore → ℕ → List ℕ → BadCore
after_first b tid_1 [] = condemn_tid b tid_1
after_first b tid_1 (c ∷ rest) = second b tid_1 (extract_int (c ∷ rest))

first : BadCore → Extracted → BadCore
first b (got (pos tid_1) rest) =
    if plausible b (pos tid_1) then after_first b tid_1 (skip_blanks rest) else b
first b _ = b

-- One line; a bad one is only logged.
unfoldable pub process_line : BadCore → List ℕ → BadCore
unfolding second after_first first
process_line b line = first b (extract_int line)

unfoldable pub read_log : BadCore → List (List ℕ) → BadCore
unfolding process_line
read_log b [] = b
read_log b (line ∷ lines) = read_log (process_line b line) lines

-- `main`, after the flags.
unfoldable pub analyze : ℕ → ℕ → List (List ℕ) → BadCore
analyze sockets cores_per_socket lines =
    condemn (read_log (new_bad_core sockets cores_per_socket) lines)

-- Every accusation names a core that exists.
abbrev pub IsValid : BadCore → Type 0
IsValid b = All (Accuses (cores b)) b.accused

canonical-lt : (s c tid : ℕ) → tid < 2 * s * c → tid % (s * c) < s * c
canonical-lt s c tid h = mod-lt tid (omega arith)

contains_head : (c : ℕ) (v : List ℕ) → contains c (c ∷ v) ≡ true
unfolding contains
contains_head c v = ground arith

condemn_tid-IsValid :
    (b : BadCore) (tid : ℕ)
    → tid < 2 * b.sockets * b.cores_per_socket
    → IsValid b
    → IsValid (condemn_tid b tid)
unfolding condemn_tid
condemn_tid-IsValid b tid h v =
    All-snoc (Accuses (cores b)) b.accused _ v
      (tid % cores b, canonical-lt b.sockets b.cores_per_socket tid h, contains_head _ [])

accuse-IsValid :
    (b : BadCore) (tid_1 tid_2 : ℕ)
    → tid_1 < 2 * b.sockets * b.cores_per_socket
    → IsValid b
    → IsValid (accuse b tid_1 tid_2)
unfolding accuse
accuse-IsValid b tid_1 tid_2 h v =
    All-snoc (Accuses (cores b)) b.accused _ v
      (tid_1 % cores b, canonical-lt b.sockets b.cores_per_socket tid_1 h, contains_head _ _)

process_line-IsValid : (b : BadCore) (line : List ℕ) → IsValid b → IsValid (process_line b line)
unfolding second after_first first
process_line-IsValid b line v = unfold process_line in on_first (extract_int line)
  where
    on_second :
        (tid : ℕ)
        → tid < 2 * b.sockets * b.cores_per_socket
        → (e : Extracted) → IsValid (second b tid e)
    on_second tid h (got (pos tid_2) rest) = elim (Bool-cases (plausible b (pos tid_2))) [
      | inl fits ↦ rw fits (accuse-IsValid b tid tid_2 h v)
      | inr out ↦ rw out v
    ]
    on_second tid h _ = v

    on_rest :
        (tid : ℕ)
        → tid < 2 * b.sockets * b.cores_per_socket
        → (s : List ℕ) → IsValid (after_first b tid s)
    on_rest tid h [] = condemn_tid-IsValid b tid h v
    on_rest tid h (c ∷ s) = on_second tid h (extract_int (c ∷ s))

    on_first : (e : Extracted) → IsValid (first b e)
    on_first (got (pos tid) rest) = elim (Bool-cases (plausible b (pos tid))) [
      | inl fits ↦ rw fits (on_rest tid (ground arith) (skip_blanks rest))
      | inr out ↦ rw out v
    ]
    on_first _ = v

read_log-IsValid : (b : BadCore) (lines : List (List ℕ)) → IsValid b → IsValid (read_log b lines)
unfolding read_log
read_log-IsValid b [] v = v
read_log-IsValid b (line ∷ lines) v =
    read_log-IsValid (process_line b line) lines (process_line-IsValid b line v)

-- Whatever the input, the analyzer ends: it disposes of every accusation that it read, each of them
-- names a core that it condemns, and the counts of the verdicts add up to their number.
pub analyze-IsSettled :
    (sockets cores_per_socket : ℕ) (lines : List (List ℕ))
    → IsSettled
        (read_log (new_bad_core sockets cores_per_socket) lines)
        (analyze sockets cores_per_socket lines)
unfolding analyze
analyze-IsSettled sockets cores_per_socket lines =
    condemn-IsSettled _
      (read_log-IsValid (new_bad_core sockets cores_per_socket) lines (unfold new_bad_core in tt))
