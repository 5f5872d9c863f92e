-- ===== src/Fields/Decimal.antt =====
-- DECIMAL fields: xmysqlnd_row_decimal_field_to_zval of xmysqlnd/xmysqlnd_wireprotocol.cc. A scale
-- byte is followed by digits of four bits and a sign of four bits. `size_t` wraps at 2 ^ 64.
use pecl_database_mysql_xdev.Common.{
  ℕ, zero, suc, ◌+◌, ◌-◌, ◌*◌, ◌/◌, ◌%◌, ◌^◌, ltb, ◌==◌, Bool, true, false, if◌then◌else◌, [], ◌∷◌,
  Option, none, some, Result, ok, err, ◌>>=◌, pass, fail, Bytes, length, get_elem?,
}
use pecl_database_mysql_xdev.Fields.{null, string, Decoded, Fault, out_of_bounds}

abbrev pub last_byte : ℕ → Bytes → ℕ
last_byte b [] = b
last_byte b (c ∷ bytes) = last_byte c bytes

abbrev pub sign_of : ℕ → ℕ
sign_of last = if last % 16 == 0 then last / 16 % 16 else last % 16

-- The number of digits in a field of `size` bytes.
abbrev pub digits_of : ℕ → ℕ → ℕ
digits_of size last =
    ((size + (2 ^ 64 - 2)) % 2 ^ 64 * 2 + (if ltb 9 (last % 16) then 1 else 0)) % 2 ^ 64

abbrev pub half : Bool → Option ℕ → Option ℕ
half odd none = none
half true (some byte) = some (byte % 16)
half false (some byte) = some (byte / 16 % 16)

-- The digit at `pos`, four bits of the byte at `1 + (pos >> 1)`.
unfoldable pub digit_at : Bytes → ℕ → Option ℕ
digit_at buf pos = half (pos % 2 == 1) (get_elem? buf (1 + pos / 2))

-- The loop over the digits, `left` of them from `pos` on.
unfoldable pub write_digits : Bytes → ℕ → ℕ → ℕ → Result Fault Bytes
unfolding digit_at
write_digits buf dot_position zero pos = ok []
write_digits buf dot_position (suc left) pos = elim (digit_at buf pos) [
  | none ↦ err out_of_bounds
  | some digit ↦
      write_digits buf dot_position left (pos + 1)
      >>= (λ rest. ok ((b'0' + digit) ∷ (if pos == dot_position then b'.' ∷ rest else rest)))
]

-- `digits - scale - 1`.
abbrev pub dot_position_of : ℕ → ℕ → ℕ
dot_position_of digits scale = (digits + (2 ^ 64 - (scale + 1))) % 2 ^ 64

abbrev pub decimal_text : Bytes → ℕ → ℕ → ℕ → Result Fault Decoded
decimal_text buf scale sign digits =
    if digits == 0
    then ok (fail, null)
    else (write_digits buf (dot_position_of digits scale) digits 0 >>= λ text.
        ok (pass, string (if sign == 13 then b'-' ∷ text else text)))

unfoldable pub decimal_field : Bytes → Result Fault Decoded
unfolding write_digits
decimal_field [] = ok (pass, null)
decimal_field (scale ∷ bytes) =
    let last = last_byte scale bytes in
    decimal_text (scale ∷ bytes) scale (sign_of last) (digits_of (length (scale ∷ bytes)) last)
