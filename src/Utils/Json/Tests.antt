-- ===== src/Utils/Json/Tests.antt =====
-- Tests of the JSON texts, and the theorem that they are read back, at a concrete input.
use cpu_check.Base.{◌≡◌, refl, [], ◌∷◌, ◌++◌, some, arith, true}
use cpu_check.Base.Int.{negsuc}
use cpu_check.Utils.Json.{
  codes, digits, decimal, signed_decimal, json_name, json_int, json_uint, json_text, json_bool,
  json_record, jtag, jstat, jfail, hole_to_string,
}
use cpu_check.Utils.Json.Reader.{number, text, truth, null}
use cpu_check.Utils.Json.Records.{
  joined, read_record, is_plain, is_plain-IsPlain, read_record-json_record,
}

hole_text :
    hole_to_string (record { start = 120; hole_length = 7; v = 83 })
    ≡ codes "\"hole\": { \"start\": 120, \"length\": 7, \"v\": 83 }"
unfolding hole_to_string json_record json_uint json_int json_name signed_decimal decimal digits
hole_text = refl

stat_text :
    jstat (codes "m1") 205 (json_int (codes "failures") (negsuc 9))
    ≡ codes "{ \"stat\": { \"failures\": -10 }, \"host\": \"m1\", \"t_us\": 205 }"
unfolding jstat jtag json_record json_uint json_int json_text json_name signed_decimal decimal
    digits
stat_text = refl

fail_text :
    jfail (codes "m1") 205 (codes "hash") (json_bool (codes "madvise") true)
    ≡ codes
        "{ \"fail\": { \"err\": \"hash\", \"madvise\": true }, \"host\": \"m1\", \"t_us\": 205 }"
unfolding jfail jtag json_record json_uint json_bool json_text json_name decimal digits
fail_text = refl

read_record-json_record_example :
    read_record 4 (
      json_record (codes "r") (
        joined
          (codes "n", number (negsuc 41))
          ((codes "t", text (codes "a")) ∷ (codes "b", truth true) ∷ (codes "z", null) ∷ []))
      ++ codes ", ")
    ≡ some (
      (
        codes "r",
        (codes "n", number (negsuc 41))
            ∷ (codes "t", text (codes "a"))
            ∷ (codes "b", truth true)
            ∷ (codes "z", null)
            ∷ [],
      ),
      codes ", ",
    )
unfolding is_plain
read_record-json_record_example =
    read_record-json_record (codes "r") (codes "n", number (negsuc 41))
      ((codes "t", text (codes "a")) ∷ (codes "b", truth true) ∷ (codes "z", null) ∷ []) 4
      (codes ", ") (omega arith) (is_plain-IsPlain (codes "r") refl)
      (
        (is_plain-IsPlain (codes "n") refl, tt),
        (
          (is_plain-IsPlain (codes "t") refl, is_plain-IsPlain (codes "a") refl),
          ((is_plain-IsPlain (codes "b") refl, tt), ((is_plain-IsPlain (codes "z") refl, tt), tt)),
        ),
      )
