-- ===== src/Utils/Json/Reader.antt =====
-- A reader of JSON, which reads back the fields that utils.cc writes.
use mathlib.Core.List.{append_assoc}
use cpu_check.Base.{
  ℕ, zero, suc, ◌+◌, ◌≡◌, ◌≢◌, ◌<◌, refl, sym, ap, ◌∙◌, Bool, true, false, ◌&&◌, Option, none, some,
  List, [], ◌∷◌, ◌++◌, ◌==◌, leb, if◌then◌else◌, arith, All,
}
use cpu_check.Base.Int.{ℤ, pos, negsuc}
use cpu_check.Base.Stream.{is_digit, read_digits}
use cpu_check.Main.{and_then}
use cpu_check.Utils.Json.{
  codes, decimal, signed_decimal, json_name, json_int, json_text, json_bool, json_null,
}
use cpu_check.Utils.Json.Number.{starts_with_digit, read_digits-decimal, decimal-first}

-- The values that are not records.
pub data Value : Type 0 where
  number : ℤ → Value
  text : List ℕ → Value
  truth : Bool → Value
  null : Value

-- How each of them is written.
unfoldable pub json : List ℕ → Value → List ℕ
json field (number v) = json_int field v
json field (text v) = json_text field v
json field (truth v) = json_bool field v
json field null = json_null field

-- No quotation mark and no backslash, which JSON escapes.
abbrev pub IsPlain : List ℕ → Type 0
IsPlain = All (λ c. (c ≢ b'"') × (c ≢ b'\\'))

abbrev pub IsPlainValue : Value → Type 0
IsPlainValue (text v) = IsPlain v
IsPlainValue _ = Unit

pub cons_to : ℕ → Option (List ℕ × List ℕ) → Option (List ℕ × List ℕ)
cons_to c none = none
cons_to c (some (name, s)) = some (c ∷ name, s)

-- A text after its first quotation mark, and what is left behind its second one.
unfoldable pub read_quoted : List ℕ → Option (List ℕ × List ℕ)
unfolding cons_to
read_quoted [] = none
read_quoted (c ∷ s) =
    let rest = cons_to c (read_quoted s) in
    if c == b'"' then some ([], s) else if c == b'\\' then none else rest

-- What is left behind a word.
unfoldable pub expect : List ℕ → List ℕ → Option (List ℕ)
expect [] s = some s
expect (c ∷ word) [] = none
expect (c ∷ word) (d ∷ s) = let rest = expect word s in if c == d then rest else none

abbrev negated : ℕ → ℤ
negated zero = pos 0
negated (suc n) = negsuc n

unfoldable pub read_value : List ℕ → Option (Value × List ℕ)
unfolding read_quoted expect
read_value [] = none
read_value (c ∷ s) =
    if c == b'"'
    then and_then (read_quoted s) (λ (t, rest). some (text t, rest))
    else if c == b'-'
    then some (number (negated (read_digits 0 s).0), (read_digits 0 s).1)
    else if is_digit c
    then some (number (pos (read_digits 0 (c ∷ s)).0), (read_digits 0 (c ∷ s)).1)
    else if c == b't'
    then and_then (expect (codes "rue") s) (λ rest. some (truth true, rest))
    else if c == b'f'
    then and_then (expect (codes "alse") s) (λ rest. some (truth false, rest))
    else and_then (expect (codes "null") (c ∷ s)) (λ rest. some (null, rest))

-- The name of a field, after which its value stands.
unfoldable pub read_name : List ℕ → Option (List ℕ × List ℕ)
unfolding expect read_quoted
read_name s = and_then (expect (codes "\"") s) (λ s'.
    and_then (read_quoted s')
      (λ (name, s''). and_then (expect (codes ": ") s'') (λ rest. some (name, rest))))

unfoldable pub read_field : List ℕ → Option ((List ℕ × Value) × List ℕ)
unfolding read_name read_value
read_field s =
    and_then (read_name s)
      (λ (name, s'). and_then (read_value s') (λ (v, rest). some ((name, v), rest)))

read_quoted-plain : (t s : List ℕ) → IsPlain t → read_quoted (t ++ b'"' ∷ s) ≡ some (t, s)
unfolding read_quoted cons_to
read_quoted-plain [] s h = refl
read_quoted-plain (c ∷ t) s ((quote, slash), h) =
    let e : (c == b'"') ≡ false = ground (arith, quote) in
    let f : (c == b'\\') ≡ false = ground (arith, slash) in
    rw (e, f) (ap (cons_to c) (read_quoted-plain t s h))

pub read_name-json_name :
    (name s : List ℕ) → IsPlain name → read_name (json_name name ++ s) ≡ some (name, s)
unfolding read_name json_name expect
read_name-json_name name s h =
    rw (append_assoc name (b'"' ∷ b':' ∷ b' ' ∷ []) s, read_quoted-plain name (b':' ∷ b' ' ∷ s) h)
      refl

read_value-digit :
    (d : ℕ) (s : List ℕ)
    → d < 10
    → read_value ((b'0' + d) ∷ s)
      ≡ some (number (pos (read_digits 0 ((b'0' + d) ∷ s)).0), (read_digits 0 ((b'0' + d) ∷ s)).1)
unfolding read_value is_digit
read_value-digit d s h =
    let quote : (b'0' + d == b'"') ≡ false = ground arith in
    let minus : (b'0' + d == b'-') ≡ false = ground arith in
    let digit : (leb b'0' (b'0' + d) && leb (b'0' + d) b'9') ≡ true = ground arith in
    rw (quote, minus, digit) refl

read_value-decimal :
    (n : ℕ) (s : List ℕ)
    → starts_with_digit s ≡ false
    → read_value (decimal n ++ s) ≡ some (number (pos n), s)
read_value-decimal n s h =
    let (d, rest, e, small) = decimal-first n in
    let same : decimal n ++ s ≡ (b'0' + d) ∷ (rest ++ s) = ap (λ t. t ++ s) e in
    let result = λ (p : ℕ × List ℕ). some (number (pos p.0), p.1) in
    ap read_value same
    ∙ read_value-digit d (rest ++ s) small
    ∙ ap (λ t. result (read_digits 0 t)) (sym same)
    ∙ ap result (read_digits-decimal n s h)

read_value-signed_decimal :
    (v : ℤ) (s : List ℕ)
    → starts_with_digit s ≡ false
    → read_value (signed_decimal v ++ s) ≡ some (number v, s)
unfolding signed_decimal
read_value-signed_decimal (pos n) s h = read_value-decimal n s h
read_value-signed_decimal (negsuc n) s h =
    unfold read_value in
    ap (λ p. some (number (negated p.0), p.1)) (read_digits-decimal (suc n) s h)

pub expect-++ : (word s : List ℕ) → expect word (word ++ s) ≡ some s
unfolding expect
expect-++ [] s = refl
expect-++ (c ∷ word) s = let e : (c == c) ≡ true = ground arith in rw e (expect-++ word s)

read_field-named :
    (name body s : List ℕ) (v : Value)
    → IsPlain name
    → read_value (body ++ s) ≡ some (v, s)
    → read_field (json_name name ++ body ++ s) ≡ some ((name, v), s)
unfolding read_field
read_field-named name body s v plain h =
    rw (append_assoc (json_name name) body s, read_name-json_name name (body ++ s) plain, h) refl

read_value-text :
    (t s : List ℕ) → IsPlain t → read_value (b'"' ∷ t ++ b'"' ∷ [] ++ s) ≡ some (text t, s)
unfolding read_value
read_value-text t s h = rw (append_assoc t (b'"' ∷ []) s, read_quoted-plain t s h) refl

-- A field whose name and text have nothing that JSON escapes is read back, whatever follows it but
-- a digit.
pub read_field-json :
    (name : List ℕ) (v : Value) (s : List ℕ)
    → IsPlain name
    → IsPlainValue v
    → starts_with_digit s ≡ false
    → read_field (json name v ++ s) ≡ some ((name, v), s)
unfolding json json_int json_text json_bool json_null
read_field-json name (number v) s plain h digit =
    read_field-named name (signed_decimal v) s _ plain (read_value-signed_decimal v s digit)
read_field-json name (text t) s plain h digit =
    rw (append_assoc (json_name name) (b'"' ∷ t) (b'"' ∷ []))
      (read_field-named name (b'"' ∷ t ++ b'"' ∷ []) s _ plain (read_value-text t s h))
read_field-json name (truth true) s plain h digit =
    read_field-named name (codes "true") s _ plain (unfold read_value expect is_digit in refl)
read_field-json name (truth false) s plain h digit =
    read_field-named name (codes "false") s _ plain (unfold read_value expect is_digit in refl)
read_field-json name null s plain h digit =
    read_field-named name (codes "null") s _ plain (unfold read_value expect is_digit in refl)
