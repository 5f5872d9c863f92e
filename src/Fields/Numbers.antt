-- ===== src/Fields/Numbers.antt =====
-- Integer fields of xmysqlnd/xmysqlnd_wireprotocol.cc: a number that does not fit a signed long
-- comes out as its decimal text.
use pecl_database_mysql_xdev.Common.{
  ℕ, zero, suc, ◌+◌, ◌-◌, ◌*◌, ◌/◌, ◌%◌, ◌^◌, ◌<◌, ◌≡◌, refl, ◌∙◌, ltb, inl, inr, Bool-cases, true,
  false, ◌≤◌, [], ◌∷◌, ◌++◌, pass, Bytes, pos, arith,
}
use native.Mathlib.Nat.{pow-succ'}
use pecl_database_mysql_xdev.Fields.{long, string, Library, to_text, to_string, uint_field}

-- The number that decimal digits spell, after those that spell `n`.
abbrev pub digits_value : ℕ → Bytes → ℕ
digits_value n [] = n
digits_value n (c ∷ text) = digits_value (n * 10 + (c - b'0')) text

digits_value-append :
    (n : ℕ) (text : Bytes) (c : ℕ)
    → digits_value n (text ++ c ∷ []) ≡ digits_value n text * 10 + (c - b'0')
digits_value-append n [] c = refl
digits_value-append n (d ∷ text) c = digits_value-append (n * 10 + (d - b'0')) text c

digits_value-to_text : (fuel n : ℕ) → n < 10 ^ fuel → digits_value 0 (to_text fuel n) ≡ n
unfolding to_text
digits_value-to_text zero n h = omega arith
digits_value-to_text (suc fuel) n h = elim (Bool-cases (ltb n 10)) [
  | inl small ↦ rw small (omega arith)
  | inr large ↦
      let ih = digits_value-to_text fuel (n / 10) (omega (arith, pow-succ' 10 fuel)) in
      rw large (digits_value-append 0 (to_text fuel (n / 10)) (b'0' + n % 10) ∙ rw ih (omega arith))
]

-- Every unsigned number of 64 bits is decoded to its value: below 2 ^ 63 as a long, and from there
-- on as the text of its decimal digits.
pub uint_field-encode :
    (lib : Library) (n : ℕ) (rest : Bytes)
    → n < 2 ^ 64
    → (n < 2 ^ 63 → uint_field lib (lib.varint.encode n ++ rest) ≡ (pass, long (pos n)))
      × (2 ^ 63 ≤ n
          → (text : Bytes) × (uint_field lib (lib.varint.encode n ++ rest) ≡ (pass, string text))
            × (digits_value 0 text ≡ n))
unfolding uint_field
uint_field-encode lib n rest h = (
  (λ small.
      let read = lib.varint.read-encode n rest h in
      let fits : ltb 9223372036854775807 n ≡ false = ground arith in
      let kept : ltb n (2 ^ 63) ≡ true = ground arith in
      rw (read, uint_field) (rw fits (rw kept refl))),
  (λ large.
      let read = lib.varint.read-encode n rest h in
      let over : ltb 9223372036854775807 n ≡ true = ground arith in
      (to_string n, rw (read, uint_field) (rw over refl), digits_value-to_text 20 n (omega arith))),
)
