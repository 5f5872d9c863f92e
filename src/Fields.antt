-- ===== src/Fields.antt =====
-- The fields of a row, decoded for PHP: the functions xmysqlnd_row_*_field_to_zval and
-- xmysqlnd_row_field_to_zval of xmysqlnd/xmysqlnd_wireprotocol.cc. A field is a list of bytes; a
-- double is the pattern of its bits. What protobuf, boost::format and mysql_float_to_double do is
-- the argument `Library`.
pub mod Decimal
pub mod DecimalText
pub mod Sets
pub mod Types
pub mod SetText
pub mod Numbers
pub mod Times
pub mod Base128
pub mod Tests
use pecl_database_mysql_xdev.Common.{
  ℕ, zero, suc, ◌+◌, ◌-◌, ◌*◌, ◌/◌, ◌%◌, ◌^◌, ◌≤◌, ◌<◌, ◌≡◌, ltb, leb, ◌==◌, Bool, true, false, not,
  ◌&&◌, ◌||◌, if◌then◌else◌, List, [], ◌∷◌, ◌++◌, Option, none, some, Result, ok, err, ◌>>=◌,
  Status, pass, fail, Bytes, codes, length, get_elem?, ℤ, pos, negsuc,
}

pub data Zval : Type 0 where
  null : Zval
  long : ℤ → Zval
  double : ℕ → Zval
  string : Bytes → Zval
  array : List Bytes → Zval

-- A status and the value that is left in `zv`.
abbrev pub Decoded : Type 0
Decoded = Status × Zval

-- What ends a decoding other than the code: a read past the end of the field, or the fuel.
pub data Fault : Type 0 where
  out_of_bounds out_of_fuel : Fault

-- ReadVarint64: the number and the bytes after it, with the encoding that it reads.
pub record Varint : Type 0 where
  pub read : Bytes → Option (ℕ × Bytes)
  pub encode : ℕ → Bytes
  pub read-encode : (n : ℕ) (rest : Bytes) → n < 2 ^ 64 → read (encode n ++ rest) ≡ some (n, rest)
  pub read_shorter :
      (bytes : Bytes) (n : ℕ) (rest : Bytes)
      → read bytes ≡ some (n, rest)
      → length rest < length bytes

-- `std::to_string` of an unsigned number of at most `fuel` digits.
unfoldable pub to_text : ℕ → ℕ → Bytes
to_text zero n = []
to_text (suc fuel) n =
    let rest = to_text fuel (n / 10) ++ (b'0' + n % 10) ∷ [] in
    if ltb n 10 then (b'0' + n) ∷ [] else rest

abbrev pub to_string : ℕ → Bytes
to_string n = to_text 20 n

-- `static_cast<zend_long>` of an unsigned number, `zend_long` being signed and 64 bits wide.
abbrev pub to_zend_long : ℕ → ℤ
to_zend_long n = if ltb n (2 ^ 63) then pos n else negsuc (2 ^ 64 - 1 - n)

-- `%0Nu`: the decimal digits of a number, behind zeros up to a width.
abbrev pub padding : ℕ → Bytes → Bytes
padding zero text = text
padding (suc n) text = b'0' ∷ padding n text

unfoldable pub padded : ℕ → ℕ → Bytes
unfolding to_text
padded width n = let text = to_text 20 n in padding (width - length text) text

-- ZigZagDecode64, ReadLittleEndian64 and ReadLittleEndian32, mysql_float_to_double on the bits of
-- a float with a number of decimals, and `%0Nu` of boost::format.
pub record Library : Type 0 where
  pub varint : Varint
  pub zig_zag_decode : ℕ → ℤ
  pub read_little_endian_64 : Bytes → Option ℕ
  pub read_little_endian_32 : Bytes → Option ℕ
  pub float_to_double : ℕ → Option ℕ → ℕ
  pub unsigned : ℕ → ℕ → Bytes
  pub unsigned-padded : (width n : ℕ) → n < 2 ^ 64 → unsigned width n ≡ padded width n

-- The bytes before the last one.
abbrev pub but_last : Bytes → Bytes
but_last [] = []
but_last (b ∷ []) = []
but_last (b ∷ c ∷ bytes) = b ∷ but_last (c ∷ bytes)

unfoldable pub string_field : Bytes → Decoded
string_field [] = (fail, null)
string_field (b ∷ bytes) = (pass, string (but_last (b ∷ bytes)))

abbrev pub zeros : ℕ → List ℕ
zeros zero = []
zeros (suc count) = 0 ∷ zeros count

-- What reading `count` numbers one after the other leaves in the variables, which start at 0: the
-- first that cannot be read ends the reading.
unfoldable pub read_numbers : (Bytes → Option (ℕ × Bytes)) → ℕ → Bytes → List ℕ
read_numbers read zero bytes = []
read_numbers read (suc count) bytes = elim (read bytes) [
  | none ↦ zeros (suc count)
  | some (n, rest) ↦ n ∷ read_numbers read count rest
]

-- One byte stands for a value of zeros, and no other byte may stand alone.
abbrev pub alone : Decoded → Bytes → ℕ → Decoded
alone wrong zeros zero = (pass, string zeros)
alone wrong zeros (suc b) = wrong

module _ (lib : Library) where
  open lib use {varint, unsigned}

  abbrev pub read : Bytes → Option (ℕ × Bytes)
  read = varint.read

  unfoldable pub sint_field : Bytes → Decoded
  sint_field buf = elim (read buf) [
    | none ↦ (fail, null)
    | some (n, rest) ↦ (pass, long (lib.zig_zag_decode n))
  ]

  unfoldable pub uint_field : Bytes → Decoded
  unfolding to_text
  uint_field buf = elim (read buf) [
    | none ↦ (fail, null)
    | some (n, rest) ↦
        (pass, (if ltb 9223372036854775807 n then string (to_string n) else long (to_zend_long n)))
  ]

  unfoldable pub double_field : Bytes → Decoded
  double_field buf = elim (lib.read_little_endian_64 buf) [
    | none ↦ (fail, null)
    | some bits ↦ (pass, double bits)
  ]

  unfoldable pub float_field : ℕ → Bytes → Decoded
  float_field fractional_digits buf = elim (lib.read_little_endian_32 buf) [
    | none ↦ (fail, null)
    | some bits ↦ (
      pass,
      double (
          lib.float_to_double bits
            (if leb 31 fractional_digits then none else some fractional_digits)),
    )
  ]

  -- `"%s%02u:%02u:%02u.%08u"`.
  abbrev pub time_text : List ℕ → Bytes
  time_text (neg ∷ hours ∷ minutes ∷ seconds ∷ useconds ∷ []) =
      (if neg == 0 then [] else b'-' ∷ [])
      ++ (unsigned 2 hours
          ++ b':'
            ∷ (unsigned 2 minutes ++ b':' ∷ (unsigned 2 seconds ++ b'.' ∷ unsigned 8 useconds)))
  time_text other = []

  unfoldable pub time_field : Bytes → Decoded
  unfolding read_numbers
  time_field [] = (pass, null)
  time_field (b ∷ []) = alone (fail, null) (codes "00:00:00.00") b
  time_field (b ∷ c ∷ buf) = (pass, string (time_text (read_numbers read 5 (b ∷ c ∷ buf))))

  -- `"%04u-%02u-%02u"`.
  abbrev pub date_text : ℕ → ℕ → ℕ → Bytes
  date_text year month day = unsigned 4 year ++ b'-' ∷ (unsigned 2 month ++ b'-' ∷ unsigned 2 day)

  -- `"%04u-%02u-%02u %02u:%02u:%02u"`: the microseconds are read and left out.
  abbrev pub datetime_text : List ℕ → Bytes
  datetime_text (year ∷ month ∷ day ∷ hours ∷ minutes ∷ seconds ∷ useconds ∷ []) =
      date_text year month day
      ++ b' ' ∷ (unsigned 2 hours ++ b':' ∷ (unsigned 2 minutes ++ b':' ∷ unsigned 2 seconds))
  datetime_text other = []

  unfoldable pub datetime_field : Bytes → Decoded
  unfolding read_numbers
  datetime_field [] = (pass, null)
  datetime_field (b ∷ []) = alone (fail, null) (codes "0000-00-00 00:00:00.00") b
  datetime_field (b ∷ c ∷ buf) = (pass, string (datetime_text (read_numbers read 7 (b ∷ c ∷ buf))))

  abbrev pub date_of : List ℕ → Bytes
  date_of (year ∷ month ∷ day ∷ []) = date_text year month day
  date_of other = []

  unfoldable pub date_field : Bytes → Decoded
  unfolding read_numbers
  date_field [] = (fail, null)
  date_field (b ∷ []) = alone (fail, null) (codes "0000-00-00") b
  date_field (b ∷ c ∷ buf) = (pass, string (date_of (read_numbers read 3 (b ∷ c ∷ buf))))
