-- ===== src/Fields/DecimalText.antt =====
-- DECIMAL fields of xmysqlnd/xmysqlnd_wireprotocol.cc against the encoding that
-- xmysqlnd/proto_def/mysqlx_resultset.proto describes: `scale | BCD+ sign [0x00]?`.
use pecl_database_mysql_xdev.Common.{
  ℕ, zero, suc, ◌+◌, ◌-◌, ◌*◌, ◌/◌, ◌%◌, ◌^◌, ◌≤◌, ◌<◌, ◌≡◌, refl, sym, ap, subst, ◌∙◌, ltb, ◌==◌,
  Bool, true, false, if◌then◌else◌, inl, inr, Bool-cases, List, [], ◌∷◌, ◌++◌, append_assoc, some,
  ok, err, pass, Bytes, length, length-append, get_elem?, take, drop, All, arith,
}
use pecl_database_mysql_xdev.Fields.{string, out_of_bounds}
use pecl_database_mysql_xdev.Fields.Decimal.{
  last_byte, sign_of, digits_of, digit_at, write_digits, dot_position_of, decimal_text,
  decimal_field,
}

-- Four bits each, two to a byte.
abbrev pub pack : List ℕ → Bytes
pack [] = []
pack (a ∷ []) = a * 16 ∷ []
pack (a ∷ b ∷ rest) = (a * 16 + b) ∷ pack rest

abbrev pub sign_digit : Bool → ℕ
sign_digit true = 13
sign_digit false = 12

abbrev pub encode_decimal : Bool → ℕ → List ℕ → Bytes
encode_decimal minus scale digits = scale ∷ pack (digits ++ sign_digit minus ∷ [])

abbrev pub characters : List ℕ → Bytes
characters [] = []
characters (d ∷ digits) = (b'0' + d) ∷ characters digits

-- The digits with a point before the last `scale` of them; without one where these are all.
abbrev pub spelled : Bool → ℕ → List ℕ → Bytes
spelled minus scale digits =
    let whole = length digits - scale in
    let text =
      if ltb scale (length digits)
      then characters (take whole digits) ++ b'.' ∷ characters (drop whole digits)
      else characters digits in
    if minus then b'-' ∷ text else text

abbrev IsNibble : ℕ → Type 0
IsNibble d = d < 16

digit_at-skip :
    (s c : ℕ) (buf : Bytes) (pos : ℕ)
    → digit_at (s ∷ c ∷ buf) (suc (suc pos)) ≡ digit_at (c ∷ buf) pos
unfolding digit_at
digit_at-skip s c buf pos =
    let parity : suc (suc pos) % 2 ≡ pos % 2 = omega arith in
    let offset : 1 + suc (suc pos) / 2 ≡ suc (1 + pos / 2) = omega arith in
    rw parity (rw offset refl)

digit_at-pack :
    (scale : ℕ) (ns : List ℕ) (pos : ℕ)
    → All IsNibble ns
    → pos < length ns
    → digit_at (scale ∷ pack ns) pos ≡ get_elem? ns pos
unfolding digit_at
digit_at-pack scale [] pos h lt = absurd (omega arith)
digit_at-pack scale (a ∷ []) zero h lt = ground arith
digit_at-pack scale (a ∷ []) (suc pos) h lt = absurd (omega arith)
digit_at-pack scale (a ∷ b ∷ ns) zero h lt = ground arith
digit_at-pack scale (a ∷ b ∷ ns) (suc zero) h lt = ground arith
digit_at-pack scale (a ∷ b ∷ ns) (suc (suc pos)) h lt =
    digit_at-skip scale (a * 16 + b) (pack ns) pos
    ∙ digit_at-pack (a * 16 + b) ns pos h.1.1 (omega arith)

dotted : ℕ → ℕ → List ℕ → Bytes
dotted dot pos [] = []
dotted dot pos (d ∷ ds) =
    (b'0' + d) ∷ (if pos == dot then b'.' ∷ dotted dot (pos + 1) ds else dotted dot (pos + 1) ds)

get_elem?-middle :
    (xs : List ℕ) (y : ℕ) (ys : List ℕ) → get_elem? (xs ++ y ∷ ys) (length xs) ≡ some y
get_elem?-middle [] y ys = refl
get_elem?-middle (x ∷ xs) y ys = get_elem?-middle xs y ys

write_digits-step :
    (buf : Bytes) (dot left pos d : ℕ) (text : Bytes)
    → digit_at buf pos ≡ some d
    → write_digits buf dot left (pos + 1) ≡ ok text
    → write_digits buf dot (suc left) pos
      ≡ ok ((b'0' + d) ∷ (if pos == dot then b'.' ∷ text else text))
unfolding write_digits
write_digits-step buf dot left pos d text e k = cc

-- The loop writes the digits from a position on, whatever stands before them.
write_digits-dotted :
    (scale dot : ℕ) (before digits after : List ℕ)
    → All IsNibble (before ++ (digits ++ after))
    → write_digits (scale ∷ pack (before ++ (digits ++ after))) dot (length digits) (length before)
      ≡ ok (dotted dot (length before) digits)
unfolding dotted
write_digits-dotted scale dot before [] after h = unfold write_digits in refl
write_digits-dotted scale dot before (d ∷ digits) after h =
    let hit =
      digit_at-pack scale (before ++ d ∷ (digits ++ after)) (length before) h
        (omega (arith, length-append {0} before (d ∷ (digits ++ after))))
      ∙ get_elem?-middle before d (digits ++ after) in
    let moved : (before ++ d ∷ []) ++ (digits ++ after) ≡ before ++ d ∷ (digits ++ after) =
      append_assoc before (d ∷ []) (digits ++ after) in
    let n : length (before ++ d ∷ []) ≡ length before + 1 = length-append {0} before (d ∷ []) in
    let ih =
      write_digits-dotted scale dot (before ++ d ∷ []) digits after
        (subst (λ (l : List ℕ). All IsNibble l) (sym moved) h) in
    let rest : write_digits (scale ∷ pack (before ++ d ∷ (digits ++ after))) dot (length digits)
          (length before + 1)
        ≡ ok (dotted dot (length before + 1) digits) =
      subst
        (λ (k : ℕ).
          write_digits (scale ∷ pack (before ++ d ∷ (digits ++ after))) dot (length digits) k
          ≡ ok (dotted dot k digits))
        n
        (subst
          (λ (l : List ℕ).
            write_digits (scale ∷ pack l) dot (length digits) (length (before ++ d ∷ []))
            ≡ ok (dotted dot (length (before ++ d ∷ [])) digits))
          moved ih) in
    write_digits-step (scale ∷ pack (before ++ d ∷ (digits ++ after))) dot (length digits)
      (length before) d _ hit rest

-- Where the point comes, seen from a position: before it, and past it.
dotted_past :
    (dot pos : ℕ) (digits : List ℕ) → dot < pos → dotted dot pos digits ≡ characters digits
unfolding dotted
dotted_past dot pos [] h = refl
dotted_past dot pos (d ∷ digits) h =
    let other : (pos == dot) ≡ false = ground arith in
    rw other
      (ap (λ (text : Bytes). (b'0' + d) ∷ text) (dotted_past dot (pos + 1) digits (omega arith)))

dotted_beyond :
    (dot pos : ℕ) (digits : List ℕ)
    → pos + length digits ≤ dot
    → dotted dot pos digits ≡ characters digits
unfolding dotted
dotted_beyond dot pos [] h = refl
dotted_beyond dot pos (d ∷ digits) h =
    let other : (pos == dot) ≡ false = ground arith in
    rw other
      (ap (λ (text : Bytes). (b'0' + d) ∷ text) (dotted_beyond dot (pos + 1) digits (omega arith)))

dotted_before :
    (pos whole : ℕ) (digits : List ℕ)
    → whole < length digits
    → dotted (pos + whole) pos digits
      ≡ characters (take (suc whole) digits) ++ b'.' ∷ characters (drop (suc whole) digits)
unfolding dotted
dotted_before pos whole [] h = absurd (omega arith)
dotted_before pos zero (d ∷ digits) h =
    let here : (pos == pos + 0) ≡ true = ground arith in
    rw here (
      ap (λ (text : Bytes). (b'0' + d) ∷ b'.' ∷ text)
        (dotted_past (pos + 0) (pos + 1) digits (omega arith)))
dotted_before pos (suc whole) (d ∷ digits) h =
    let other : (pos == pos + suc whole) ≡ false = ground arith in
    let dot : pos + 1 + whole ≡ pos + suc whole = omega arith in
    rw other (
      ap (λ (text : Bytes). (b'0' + d) ∷ text)
        (subst
          (λ (k : ℕ).
            dotted k (pos + 1) digits
            ≡ characters (take (suc whole) digits) ++ b'.' ∷ characters (drop (suc whole) digits))
          dot (dotted_before (pos + 1) whole digits (omega arith))))

abbrev pub IsDigit : ℕ → Type 0
IsDigit d = d < 10

-- The sign and the parity of the number of digits, read off the last byte.
record EndsWith (digits : List ℕ) (sign last : ℕ) : Type 0 where
  sign_read : sign_of last ≡ sign
  parity : (if ltb 9 (last % 16) then 1 else 0) ≡ length digits % 2

pack-EndsWith :
    (scale : ℕ) (digits : List ℕ) (sign : ℕ)
    → All IsNibble digits
    → 9 < sign
    → sign < 16
    → EndsWith digits sign (last_byte scale (pack (digits ++ sign ∷ [])))
pack-EndsWith scale [] sign h low high = record { sign_read = ground arith; parity = ground arith }
pack-EndsWith scale (d ∷ []) sign h low high = record {
  sign_read = ground arith;
  parity = ground arith;
}
pack-EndsWith scale (d ∷ e ∷ digits) sign h low high =
    let ends = pack-EndsWith (d * 16 + e) digits sign h.1.1 low high in
    record { sign_read = ends.sign_read; parity = omega (arith, ends.parity) }

length-pack :
    (digits : List ℕ) (sign : ℕ) → length (pack (digits ++ sign ∷ [])) ≡ length digits / 2 + 1
length-pack [] sign = omega arith
length-pack (d ∷ []) sign = omega arith
length-pack (d ∷ e ∷ digits) sign = omega (arith, length-pack digits sign)

digits_of-pack :
    (n k last : ℕ)
    → n < 2 ^ 62
    → k ≡ n / 2 + 1
    → (if ltb 9 (last % 16) then 1 else 0) ≡ n % 2
    → digits_of (suc k) last ≡ n
digits_of-pack n k last small e parity = rw parity (omega arith)

dotted-spelled :
    (scale : ℕ) (digits : List ℕ)
    → scale < 256
    → length digits < 2 ^ 62
    → dotted (dot_position_of (length digits) scale) 0 digits ≡ (
        if ltb scale (length digits)
        then characters (take (length digits - scale) digits)
          ++ b'.' ∷ characters (drop (length digits - scale) digits)
        else characters digits)
dotted-spelled scale digits byte small = elim (Bool-cases (ltb scale (length digits))) [
  | inl point ↦
      let whole = length digits - scale - 1 in
      let dot : 0 + whole ≡ dot_position_of (length digits) scale = ground arith in
      let some_whole : suc whole ≡ length digits - scale = ground arith in
      rw point (
        ap (λ (k : ℕ). dotted k 0 digits) (sym dot)
        ∙ (dotted_before 0 whole digits (ground arith)
            ∙ ap (λ (k : ℕ). characters (take k digits) ++ b'.' ∷ characters (drop k digits))
                some_whole))
  | inr all ↦ rw all (dotted_beyond (dot_position_of (length digits) scale) 0 digits (ground arith))
]

All-sign :
    (digits : List ℕ) (sign : ℕ)
    → All IsDigit digits
    → sign < 16
    → All IsNibble (digits ++ sign ∷ [])
All-sign [] sign h k = (k, tt)
All-sign (d ∷ digits) sign h k = (omega arith, All-sign digits sign h.1 k)

All-nibbles : (digits : List ℕ) → All IsDigit digits → All IsNibble digits
All-nibbles [] h = tt
All-nibbles (d ∷ digits) h = (omega arith, All-nibbles digits h.1)

sign_digit_range : (minus : Bool) → (9 < sign_digit minus) × (sign_digit minus < 16)
sign_digit_range true = omega arith
sign_digit_range false = omega arith

signed :
    (minus : Bool) (text : Bytes)
    → (if sign_digit minus == 13 then b'-' ∷ text else text) ≡ (if minus then b'-' ∷ text else text)
signed true text = refl
signed false text = refl

decimal_text-written :
    (buf : Bytes) (scale sign digits : ℕ) (text : Bytes)
    → 0 < digits
    → write_digits buf (dot_position_of digits scale) digits 0 ≡ ok text
    → decimal_text buf scale sign digits
      ≡ ok (pass, string (if sign == 13 then b'-' ∷ text else text))
decimal_text-written buf scale sign digits text h e =
    let none_zero : (digits == 0) ≡ false = ground arith in rw (none_zero, e) refl

-- A decimal of at least one digit, encoded as the protocol says, is decoded to its digits behind
-- its sign, with a point before the last `scale` of them: so one of scale 0 ends in a point. With
-- no more digits than the scale says, no point is written.
pub decimal_field-encode_decimal :
    (minus : Bool) (scale : ℕ) (digits : List ℕ)
    → scale < 256
    → All IsDigit digits
    → 0 < length digits
    → length digits < 2 ^ 62
    → decimal_field (encode_decimal minus scale digits)
      ≡ ok (pass, string (spelled minus scale digits))
unfolding decimal_field
decimal_field-encode_decimal minus scale digits byte h some_digit small =
    let sign = sign_digit minus in
    let range = sign_digit_range minus in
    let bytes = pack (digits ++ sign ∷ []) in
    let ends = pack-EndsWith scale digits sign (All-nibbles digits h) range.0 range.1 in
    let count =
      digits_of-pack (length digits) (length bytes) (last_byte scale bytes) small
        (length-pack digits sign) ends.parity in
    let written =
      write_digits-dotted scale (dot_position_of (length digits) scale) [] digits (sign ∷ [])
        (All-sign digits sign h range.1) in
    ap
      (λ (k : ℕ).
        decimal_text (scale ∷ bytes) scale k
          (digits_of (suc (length bytes)) (last_byte scale bytes)))
      ends.sign_read
    ∙ (ap (λ (k : ℕ). decimal_text (scale ∷ bytes) scale sign k) count
        ∙ (decimal_text-written (scale ∷ bytes) scale sign (length digits) _ some_digit written
            ∙ ap (λ (text : Bytes). ok (pass, string text))
                (signed minus _
                  ∙ ap (λ (text : Bytes). if minus then b'-' ∷ text else text)
                      (dotted-spelled scale digits byte small))))

first_outside :
    (b dot digits : ℕ) → 0 < digits → write_digits (b ∷ []) dot digits 0 ≡ err out_of_bounds
unfolding write_digits
first_outside b dot zero h = absurd (omega arith)
first_outside b dot (suc digits) h = refl

one_byte_text :
    (b sign digits : ℕ) → 0 < digits → decimal_text (b ∷ []) b sign digits ≡ err out_of_bounds
one_byte_text b sign digits h =
    let none_zero : (digits == 0) ≡ false = ground arith in
    rw (none_zero, first_outside b (dot_position_of digits b) digits h) refl

-- A DECIMAL field of one byte makes the decoder read past the end of the field.
decimal_field_one_byte : (b : ℕ) → decimal_field (b ∷ []) ≡ err out_of_bounds
unfolding decimal_field
decimal_field_one_byte b = one_byte_text b (sign_of b) (digits_of 1 b) (ground arith)
