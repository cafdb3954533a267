-- ===== src/Utils/Json.antt =====
-- utils.cc: the fields of a JSON record, as the codes of their characters, and the texts of
-- cpu_check.cc and malign_buffer.cc that are made of them. `Json` of a `double` is left out.
pub mod Number
pub mod Reader
pub mod Records
mod Tests
use Prim.Native.Char.{code}
use Prim.Native.String.{String}
use cpu_check.Base.{
  ℕ, zero, suc, ◌+◌, ◌/◌, ◌%◌, Bool, true, false, List, [], ◌∷◌, ◌++◌, ◌==◌, if◌then◌else◌,
}
use cpu_check.Base.Int.{ℤ, pos, negsuc}
use cpu_check.MalignBuffer.{PunchedHole}

abbrev pub codes : String → List ℕ
codes String.[] = []
codes (String.◌∷◌ c s) = code c ∷ codes s

-- The decimal digits of `n` before `acc`. A digit is taken off in each round, so the number itself is
-- enough fuel.
unfoldable pub digits : ℕ → ℕ → List ℕ → List ℕ
digits zero n acc = acc
digits (suc fuel) n acc =
    let more = digits fuel (n / 10) ((b'0' + n % 10) ∷ acc) in
    if n / 10 == 0 then (b'0' + n % 10) ∷ acc else more

-- `std::to_string`, of the standard library.
unfoldable pub decimal : ℕ → List ℕ
decimal n = digits (suc n) n []

unfoldable pub signed_decimal : ℤ → List ℕ
signed_decimal (pos n) = decimal n
signed_decimal (negsuc n) = b'-' ∷ decimal (suc n)

-- `"field": `.
unfoldable pub json_name : List ℕ → List ℕ
json_name field = b'"' ∷ field ++ b'"' ∷ b':' ∷ b' ' ∷ []

-- `Json` of an `int`, a `uint64_t` and a text, `JsonBool`, `JsonNull` and `JsonRecord`.
unfoldable pub json_int : List ℕ → ℤ → List ℕ
json_int field v = json_name field ++ signed_decimal v

unfoldable pub json_uint : List ℕ → ℕ → List ℕ
json_uint field v = json_name field ++ decimal v

unfoldable pub json_text : List ℕ → List ℕ → List ℕ
json_text field v = json_name field ++ b'"' ∷ v ++ b'"' ∷ []

unfoldable pub json_bool : List ℕ → Bool → List ℕ
json_bool field v = json_name field ++ (if v then codes "true" else codes "false")

unfoldable pub json_null : List ℕ → List ℕ
json_null field = json_name field ++ codes "null"

unfoldable pub json_record : List ℕ → List ℕ → List ℕ
json_record name v = json_name name ++ codes "{ " ++ v ++ codes " }"

-- `JTag`, at a host name and a time in microseconds, and `Jstat`.
unfoldable pub jtag : List ℕ → ℕ → List ℕ
jtag host t_us = json_text (codes "host") host ++ codes ", " ++ json_uint (codes "t_us") t_us

unfoldable pub jstat : List ℕ → ℕ → List ℕ → List ℕ
jstat host t_us v =
    codes "{ " ++ json_record (codes "stat") v ++ codes ", " ++ jtag host t_us ++ codes " }"

-- `Jfail`, the text of a failure.
unfoldable pub jfail : List ℕ → ℕ → List ℕ → List ℕ → List ℕ
jfail host t_us err v =
    codes "{ "
    ++ json_record (codes "fail") (json_text (codes "err") err ++ codes ", " ++ v)
    ++ codes ", "
    ++ jtag host t_us
    ++ codes " }"

-- `PunchedHole::ToString`.
unfoldable pub hole_to_string : PunchedHole → List ℕ
hole_to_string hole =
    if hole.hole_length == 0
    then json_null (codes "hole")
    else json_record (codes "hole") (
        json_uint (codes "start") hole.start
        ++ codes ", "
        ++ json_uint (codes "length") hole.hole_length
        ++ codes ", "
        ++ json_int (codes "v") (pos hole.v))
