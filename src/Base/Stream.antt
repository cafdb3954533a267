-- ===== src/Base/Stream.antt =====
-- `stream >> n` for an `int`, of the standard library: white space is skipped, then a sign and
-- decimal digits are read. Characters are their codes.
use Prim.Native.Nat.{ℕ, zero, suc, ◌+◌, ◌-◌, ◌*◌, ◌^◌, ◌<◌, ◌≤◌}
use mathlib.Core.Path.{◌≡◌, refl, sym, ◌∙◌}
use native.Mathlib.Omega.{arith}
use mathlib.Core.Bool.{Bool, true, false, ◌&&◌, ◌||◌}
use mathlib.Core.List.{List, [], ◌∷◌}
use cpu_check.Base.Tests.{ltb, leb, ◌==◌, if◌then◌else◌}
use cpu_check.Base.Int.{ℤ, pos, negsuc}

-- `eof`: no character was left, and the variable is unchanged. `bad v`: the extraction failed and
-- wrote `v`. `got v rest`: it read `v` and left `rest`.
pub data Extracted : Type 0 where
  eof : Extracted
  bad : ℤ → Extracted
  got : ℤ → List ℕ → Extracted

is_space : ℕ → Bool
is_space c = c == b' ' || leb 9 c && leb c 13

unfoldable pub is_digit : ℕ → Bool
is_digit c = leb b'0' c && leb c b'9'

skip_space : List ℕ → List ℕ
skip_space [] = []
skip_space (c ∷ s) = let rest = skip_space s in if is_space c then rest else c ∷ s

unfoldable pub read_digits : ℕ → List ℕ → ℕ × List ℕ
unfolding is_digit
read_digits n [] = (n, [])
read_digits n (c ∷ s) =
    let rest = read_digits (n * 10 + (c - b'0')) s in if is_digit c then rest else (n, c ∷ s)

abbrev pub int_max : ℕ
int_max = 2 ^ 31 - 1

to_int : Bool → ℕ × List ℕ → Extracted
to_int false (n, rest) = if ltb int_max n then bad (pos int_max) else got (pos n) rest
to_int true (zero, rest) = got (pos 0) rest
to_int true (suc n, rest) = if ltb int_max n then bad (negsuc int_max) else got (negsuc n) rest

-- After the sign.
read_number : Bool → List ℕ → Extracted
read_number sign [] = bad (pos 0)
read_number sign (c ∷ s) = if is_digit c then to_int sign (read_digits 0 (c ∷ s)) else bad (pos 0)

read_signed : List ℕ → Extracted
read_signed [] = eof
read_signed (c ∷ s) =
    if c == b'-'
    then read_number true s
    else if c == b'+'
    then read_number false s
    else read_number false (c ∷ s)

unfoldable pub extract_int : List ℕ → Extracted
unfolding is_space is_digit skip_space read_digits to_int read_number read_signed
extract_int s = read_signed (skip_space s)

-- A number that starts with a digit and fits an `int` is read.
pub extract_int-digit :
    (d n : ℕ) (s rest : List ℕ)
    → d < 10
    → n ≤ int_max
    → read_digits 0 ((b'0' + d) ∷ s) ≡ (n, rest)
    → extract_int ((b'0' + d) ∷ s) ≡ got (pos n) rest
unfolding extract_int
extract_int-digit d n s rest h small e =
    let space : (b'0' + d == b' ' || leb 9 (b'0' + d) && leb (b'0' + d) 13) ≡ false =
      ground arith in
    let minus : (b'0' + d == b'-') ≡ false = ground arith in
    let plus : (b'0' + d == b'+') ≡ false = ground arith in
    let digit : (leb b'0' (b'0' + d) && leb (b'0' + d) b'9') ≡ true = ground arith in
    let fits : ltb int_max n ≡ false = ground arith in
    let next : read_digits 0 ((b'0' + d) ∷ s) ≡ read_digits (0 * 10 + (b'0' + d - b'0')) s =
      rw digit refl in
    rw space (rw (minus, plus) (rw digit (rw (sym next ∙ e) (rw fits refl))))

-- `while (ss.peek() == ' ') ss.ignore();`
unfoldable pub skip_blanks : List ℕ → List ℕ
skip_blanks [] = []
skip_blanks (c ∷ s) = let rest = skip_blanks s in if c == b' ' then rest else c ∷ s
