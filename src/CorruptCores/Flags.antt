-- ===== src/CorruptCores/Flags.antt =====
-- The flags of corrupt_cores.cc: the numbers of sockets and of cores per socket.
use mathlib.Core.List.{append-nil}
use cpu_check.Base.{
  ℕ, ◌^◌, ◌-◌, ◌≤◌, ◌≡◌, refl, sym, ap, ◌∙◌, Option, none, some, List, [], ◌∷◌, ◌==◌, if◌then◌else◌,
}
use cpu_check.Base.Int.{ℤ, pos}
use cpu_check.Base.Stream.{Extracted, eof, bad, got, extract_int, read_digits, extract_int-digit}
use cpu_check.Main.{and_then}
use cpu_check.Utils.Json.{decimal}
use cpu_check.Utils.Json.Number.{starts_with_digit, read_digits-decimal, decimal-first}

-- The locals of `main`, which the flags set.
pub record Machine : Type 0 where
  pub sockets : ℤ
  pub cores_per_socket : ℤ

abbrev pub default_machine : Machine
default_machine = record { sockets = pos 2; cores_per_socket = pos 28 }

-- `UsageIf((s >> n).fail())`.
pub number_or_usage : Extracted → Option ℤ
number_or_usage eof = none
number_or_usage (bad v) = none
number_or_usage (got v rest) = some v

-- The letters behind the `-`. A letter takes the rest of the argument as its number, and then the
-- loop ends. `none`: the usage message is shown and the exit status is 2.
unfoldable pub read_letter : List ℕ → Machine → Option Machine
unfolding number_or_usage
read_letter [] m = some m
read_letter (c ∷ s) m =
    if c == b'c'
    then and_then (number_or_usage (extract_int s)) (λ v. some (record m { cores_per_socket = v }))
    else if c == b's'
    then and_then (number_or_usage (extract_int s)) (λ v. some (record m { sockets = v }))
    else none

unfoldable pub read_flags : List (List ℕ) → Machine → Option Machine
unfolding read_letter
read_flags [] m = some m
read_flags ([] ∷ args) m = none
read_flags ((c ∷ s) ∷ args) m =
    and_then (if c == b'-' then read_letter s m else none) (read_flags args)

-- A number that fits an `int` is read back from its text.
extract_int-decimal : (n : ℕ) → n ≤ 2 ^ 31 - 1 → extract_int (decimal n) ≡ got (pos n) []
extract_int-decimal n h =
    let (d, rest, e, small) = decimal-first n in
    ap extract_int e
    ∙ extract_int-digit d n rest [] small h (
        ap (read_digits 0) (sym e)
        ∙ ap (read_digits 0) (sym (append-nil (decimal n)))
        ∙ read_digits-decimal n [] (unfold starts_with_digit in refl))

-- The flags set the numbers that are written in them, whatever was set before.
read_flags-decimal :
    (sockets cores_per_socket : ℕ) (m : Machine)
    → sockets ≤ 2 ^ 31 - 1
    → cores_per_socket ≤ 2 ^ 31 - 1
    → read_flags ((b'-' ∷ b's' ∷ decimal sockets) ∷ (b'-' ∷ b'c' ∷ decimal cores_per_socket) ∷ []) m
      ≡ some (record { sockets = pos sockets; cores_per_socket = pos cores_per_socket })
unfolding read_flags
read_flags-decimal sockets cores_per_socket m h k =
    rw (extract_int-decimal sockets h, extract_int-decimal cores_per_socket k) refl
