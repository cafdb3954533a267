-- ===== src/Main/Tests.antt =====
-- The theorems on the arguments at concrete inputs.
use cpu_check.Base.{
  ℕ, ◌≡◌, ◌⊎◌, ◌<◌, refl, true, false, not, ◌&&◌, some, none, List, [], ◌∷◌, ltb, Option, Bool,
}
use cpu_check.Base.Int.{pos}
use cpu_check.Main.{Streams, Flags, default_options, read_arguments, read_tids, listed, tested}
use cpu_check.Main.Laws.{is_some, are_arguments, read_arguments-are_arguments, tested-listed}

abbrev streams : Streams
streams = record { read_uintmax = λ s old. 5; read_int64 = λ s old. old }

-- `-N -c1` in effect.
abbrev inverted : Flags
inverted = record {
  options = record (default_options true true false false) { do_invert_cores = true };
  tid_list = pos 1 ∷ [];
  timeout = pos 0;
}

reads_a_list : read_tids 6 (b'1' ∷ b',' ∷ b'2' ∷ b'3' ∷ b'x' ∷ []) ≡ pos 1 ∷ pos 23 ∷ []
unfolding read_tids cpu_check.Base.Stream.extract_int
reads_a_list = refl

-- `-Nz -c1`, and the unknown `-j`.
read_arguments-are_arguments_example :
    is_some (
      read_arguments streams
        ((b'-' ∷ b'N' ∷ b'z' ∷ []) ∷ (b'-' ∷ b'c' ∷ b'1' ∷ []) ∷ (b'-' ∷ b'j' ∷ []) ∷ [])
        inverted)
    ≡ are_arguments
        ((b'-' ∷ b'N' ∷ b'z' ∷ []) ∷ (b'-' ∷ b'c' ∷ b'1' ∷ []) ∷ (b'-' ∷ b'j' ∷ []) ∷ [])
read_arguments-are_arguments_example =
    read_arguments-are_arguments streams
      ((b'-' ∷ b'N' ∷ b'z' ∷ []) ∷ (b'-' ∷ b'c' ∷ b'1' ∷ []) ∷ (b'-' ∷ b'j' ∷ []) ∷ []) inverted

tested-listed_example :
    ((i : ℕ) → listed i (tested 3 inverted) ≡ (ltb i 3 && not (listed i (pos 1 ∷ []))))
    ⊎ (((i : ℕ) → i < 3 → listed i (pos 1 ∷ []) ≡ true)
        × ((i : ℕ) → listed i (tested 3 inverted) ≡ ltb i 3))
tested-listed_example = tested-listed 3 inverted refl
