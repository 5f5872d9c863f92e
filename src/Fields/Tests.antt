-- ===== src/Fields/Tests.antt =====
-- Runs of the decoders of fields.
use pecl_database_mysql_xdev.Common.{
  ℕ, List, ◌<◌, ◌≤◌, ◌^◌, length, Bytes, pos, ◌≡◌, refl, true, [], ◌∷◌, ◌++◌, ok, err, pass, codes,
  arith,
}
use pecl_database_mysql_xdev.Fields.{
  string, long, padded, array, out_of_bounds, uint_field, time_field, datetime_field,
}
use pecl_database_mysql_xdev.Fields.Decimal.{decimal_field}
use pecl_database_mysql_xdev.Fields.Sets.{set_field}
use pecl_database_mysql_xdev.Fields.DecimalText.{
  encode_decimal, spelled, decimal_field-encode_decimal,
}
use pecl_database_mysql_xdev.Fields.SetText.{encode_set, without_last_blank, set_field-encode_set}
use pecl_database_mysql_xdev.Fields.Numbers.{digits_value, uint_field-encode}
use pecl_database_mysql_xdev.Fields.Times.{
  encode_numbers, spelled_time, spelled_datetime, time_field-encode_numbers,
}
use pecl_database_mysql_xdev.Fields.Base128.{base128, read128, encode128, library}

decimal_run :
    decimal_field (0x04 ∷ 0x12 ∷ 0x34 ∷ 0x01 ∷ 0xd0 ∷ []) ≡ ok (pass, string (codes "-12.3401"))
unfolding decimal_field
decimal_run = refl

whole_decimal_run : decimal_field (0 ∷ 0x12 ∷ 0x3c ∷ []) ≡ ok (pass, string (codes "123."))
unfolding decimal_field
whole_decimal_run = refl

one_byte_decimal_run : decimal_field (3 ∷ []) ≡ err out_of_bounds
unfolding decimal_field
one_byte_decimal_run = refl

set_run :
    set_field (read128 10) (3 ∷ b'F' ∷ b'O' ∷ b'O' ∷ 3 ∷ b'B' ∷ b'A' ∷ b'R' ∷ [])
    ≡ ok (pass, array (codes "FOO" ∷ codes "BAR" ∷ []))
unfolding set_field read128
set_run = refl

blank_set_run : set_field (read128 10) (0 ∷ []) ≡ ok (pass, array [])
unfolding set_field read128
blank_set_run = refl

time_run : time_field library (1 ∷ 2 ∷ 3 ∷ 4 ∷ 5 ∷ []) ≡ (pass, string (codes "-02:03:04.00000005"))
unfolding time_field read128 padded
time_run = refl

decimal_field-encode_decimal_example :
    decimal_field (encode_decimal true 4 (1 ∷ 2 ∷ 3 ∷ 4 ∷ 0 ∷ 1 ∷ []))
    ≡ ok (pass, string (spelled true 4 (1 ∷ 2 ∷ 3 ∷ 4 ∷ 0 ∷ 1 ∷ [])))
decimal_field-encode_decimal_example =
    decimal_field-encode_decimal true 4 (1 ∷ 2 ∷ 3 ∷ 4 ∷ 0 ∷ 1 ∷ []) (omega arith) (omega arith)
      (omega arith) (omega arith)

set_field-encode_set_example :
    set_field (read128 10) (encode_set base128 (codes "FOO" ∷ [] ∷ []))
    ≡ ok (pass, array (without_last_blank (codes "FOO" ∷ [] ∷ [])))
unfolding encode128
set_field-encode_set_example =
    set_field-encode_set base128 (codes "FOO" ∷ [] ∷ []) (omega arith) refl

uint_field-encode_example :
    (300 < 2 ^ 63 → uint_field library (encode128 10 300 ++ []) ≡ (pass, long (pos 300)))
    × (2 ^ 63 ≤ 300
        → (text : Bytes) × (uint_field library (encode128 10 300 ++ []) ≡ (pass, string text))
          × (digits_value 0 text ≡ 300))
uint_field-encode_example = uint_field-encode library 300 [] (omega arith)

abbrev hours_and_minutes : List ℕ
hours_and_minutes = 1 ∷ 2 ∷ 3 ∷ []

time_field-encode_numbers_example :
    (length hours_and_minutes ≤ 5
      → time_field library (encode_numbers base128 hours_and_minutes)
        ≡ (pass, string (spelled_time hours_and_minutes)))
    × (length hours_and_minutes ≤ 7
        → datetime_field library (encode_numbers base128 hours_and_minutes)
          ≡ (pass, string (spelled_datetime hours_and_minutes)))
time_field-encode_numbers_example =
    time_field-encode_numbers library hours_and_minutes (omega arith) (omega arith)
