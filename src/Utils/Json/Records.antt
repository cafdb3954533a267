-- ===== src/Utils/Json/Records.antt =====
-- A record of JSON with any fields is read back, and with it the hole of a buffer.
use mathlib.Core.List.{append_assoc}
use cpu_check.Base.{
  ℕ, zero, suc, ◌≡◌, ◌<◌, ◌⊎◌, refl, ap, Bool, true, false, not, ◌&&◌, Option, none, some, List, [],
  ◌∷◌, ◌++◌, ◌==◌, arith, All, length, Bool-cases, inl, inr,
}
use cpu_check.Base.Int.{pos}
use cpu_check.Base.Stream.{is_digit}
use cpu_check.Main.{and_then}
use cpu_check.MalignBuffer.{PunchedHole}
use cpu_check.Utils.Json.{
  codes, signed_decimal, json_name, json_record, json_int, json_uint, json_null, hole_to_string,
}
use cpu_check.Utils.Json.Number.{starts_with_digit}
use cpu_check.Utils.Json.Reader.{
  Value, number, null, json, IsPlain, IsPlainValue, expect, read_name, read_field,
  read_name-json_name, read_field-json,
}

abbrev pub Field : Type 0
Field = List ℕ × Value

abbrev pub IsPlainField : Field → Type 0
IsPlainField (name, v) = IsPlain name × IsPlainValue v

-- The fields with a comma and a blank between.
unfoldable pub joined : Field → List Field → List ℕ
joined (name, v) [] = json name v
joined (name, v) (f ∷ fs) = json name v ++ (codes ", " ++ joined f fs)

-- At most `n` fields, and what is left.
unfoldable pub read_fields : ℕ → List ℕ → Option (List Field × List ℕ)
read_fields zero s = none
read_fields (suc n) s = and_then (read_field s) (λ (f, rest). elim (expect (codes ", ") rest) [
  | none ↦ some (f ∷ [], rest)
  | some more ↦ and_then (read_fields n more) (λ (fs, end). some (f ∷ fs, end))
])

-- A record of at most `n` fields, with its name.
unfoldable pub read_record : ℕ → List ℕ → Option ((List ℕ × List Field) × List ℕ)
unfolding read_fields
read_record n s = and_then (read_name s) (λ (name, s'). and_then (expect (codes "{ ") s') (λ s''.
    and_then (read_fields n s'')
      (λ (fs, end). and_then (expect (codes " }") end) (λ rest. some ((name, fs), rest)))))

read_fields-joined :
    (f : Field) (fs : List Field) (n : ℕ) (s : List ℕ)
    → length fs < n
    → All IsPlainField (f ∷ fs)
    → read_fields n (joined f fs ++ (codes " }" ++ s)) ≡ some (f ∷ fs, codes " }" ++ s)
unfolding read_fields joined expect
read_fields-joined f fs zero s h plain = absurd (omega arith)
read_fields-joined (name, v) [] (suc n) s h ((p, q), _) =
    rw (read_field-json name v (codes " }" ++ s) p q (unfold starts_with_digit is_digit in refl))
      refl
read_fields-joined (name, v) (g ∷ fs) (suc n) s h ((p, q), plain) =
    let tail = joined g fs ++ (codes " }" ++ s) in
    rw
      (
        append_assoc (json name v) (codes ", " ++ joined g fs) (codes " }" ++ s),
        read_field-json name v (codes ", " ++ tail) p q (unfold starts_with_digit is_digit in refl),
      )
      (unfold expect in
        ap (λ o. and_then {B = List Field × List ℕ} o (λ (more, end). some ((name, v) ∷ more, end)))
          (read_fields-joined g fs n s (omega arith) plain))

-- A record is read back with its name and all of its fields, if nothing in it has to be escaped.
pub read_record-json_record :
    (name : List ℕ) (f : Field) (fs : List Field) (n : ℕ) (s : List ℕ)
    → length fs < n
    → IsPlain name
    → All IsPlainField (f ∷ fs)
    → read_record n (json_record name (joined f fs) ++ s) ≡ some ((name, f ∷ fs), s)
unfolding read_record json_record
read_record-json_record name f fs n s h p plain =
    let rest = codes " }" ++ s in
    let opened = json_name name ++ codes "{ " in
    rw
      (
        append_assoc (opened ++ joined f fs) (codes " }") s,
        append_assoc opened (joined f fs) rest,
        append_assoc (json_name name) (codes "{ ") (joined f fs ++ rest),
        read_name-json_name name (codes "{ " ++ (joined f fs ++ rest)) p,
      )
      (unfold expect in rw (read_fields-joined f fs n s h plain) refl)

unfoldable pub is_plain : List ℕ → Bool
is_plain [] = true
is_plain (c ∷ s) = (not (c == b'"') && not (c == b'\\')) && is_plain s

pub is_plain-IsPlain : (s : List ℕ) → is_plain s ≡ true → IsPlain s
unfolding is_plain
is_plain-IsPlain [] h = tt
is_plain-IsPlain (c ∷ s) h =
    ((ground (arith, h), ground (arith, h)), is_plain-IsPlain s (ground (arith, h)))

-- The fields of a hole.
abbrev pub hole_fields : PunchedHole → List Field
hole_fields hole =
    (codes "length", number (pos hole.hole_length)) ∷ (codes "v", number (pos hole.v)) ∷ []

-- A hole is read back from its text, and `null` for none.
pub read_record-hole_to_string :
    (hole : PunchedHole) (s : List ℕ)
    → starts_with_digit s ≡ false
    → ((0 < hole.hole_length)
        × (read_record 3 (hole_to_string hole ++ s)
            ≡ some
                ((codes "hole", (codes "start", number (pos hole.start)) ∷ hole_fields hole), s)))
      ⊎ ((hole.hole_length ≡ 0)
          × (read_field (hole_to_string hole ++ s) ≡ some ((codes "hole", null), s)))
unfolding hole_to_string is_plain json json_uint json_int joined signed_decimal json_null
read_record-hole_to_string hole s digit =
    let start = json_uint (codes "start") hole.start in
    let len = json_uint (codes "length") hole.hole_length in
    let v = json_int (codes "v") (pos hole.v) in
    let comma = codes ", " in
    elim (Bool-cases (hole.hole_length == 0)) [
      | inl e ↦ inr (
        ground (arith, e),
        rw e
            (read_field-json (codes "hole") null s (is_plain-IsPlain (codes "hole") refl) tt digit),
      )
      | inr e ↦ inl (
        ground (arith, e),
        rw
            (
              e,
              append_assoc (start ++ comma ++ len) comma v,
              append_assoc (start ++ comma) len (comma ++ v),
              append_assoc start comma (len ++ (comma ++ v)),
            )
            (read_record-json_record (codes "hole") (codes "start", number (pos hole.start))
              (hole_fields hole) 3 s (omega arith) (is_plain-IsPlain (codes "hole") refl)
              (
                (is_plain-IsPlain (codes "start") refl, tt),
                (
                  (is_plain-IsPlain (codes "length") refl, tt),
                  ((is_plain-IsPlain (codes "v") refl, tt), tt),
                ),
              )),
      )
    ]
