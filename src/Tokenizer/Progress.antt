-- ===== src/Tokenizer/Progress.antt =====
-- Every round of Tokenizer::get_tokens moves on, so the loop ends, and its tokens stand in order.
use pecl_database_mysql_xdev.Common.{
  ℕ, suc, ◌+◌, ◌≤◌, ◌<◌, ◌≡◌, ◌≢◌, refl, ap, Bool, true, false, not, ◌&&◌, ◌||◌, ◌==◌,
  if◌then◌else◌, [], ◌∷◌, ◌++◌, Option, none, some, Result, ok, err, Bytes, length, length-append,
  is_digit, is_alpha, is_space, arith, Bool-cases, inl, inr,
}
use pecl_database_mysql_xdev.Tokenizer.Tokens.{Token, TokenType, lnum}
use pecl_database_mysql_xdev.Tokenizer.Rounds.{Error, out_of_fuel, Round, Span, span, literal}
use pecl_database_mysql_xdev.Tokenizer.Numbers.{
  exponent_digits, exponent_sign, exponent, fraction, number_end, number, point,
}
use pecl_database_mysql_xdev.Tokenizer.Operators.{
  star, minus_or_arrow, exclamation, less, greater, punctuation,
}
use pecl_database_mysql_xdev.Tokenizer.Literals.{quoted, arrow_quote, word, is_word}
use pecl_database_mysql_xdev.Tokenizer.{operator_or_literal, non_word, lex_one}

abbrev pub PosFrom : ℕ → ℕ → Option Token → Type 0
PosFrom i j none = Unit
PosFrom i j (some t) = (i ≤ t.pos) × (t.pos ≤ j)

-- A round at index `i` of an input that ends at `e`: it accounts for every byte, takes at least
-- one, and the position of its token lies between the two indices.
abbrev pub Advances : ℕ → ℕ → Result Error Round → Type 0
Advances i e (ok r) = (r.index + length r.rest ≡ e) × (i < r.index) × PosFrom i r.index r.token
Advances i e (err x) = x ≢ out_of_fuel

-- A scan over `n` bytes, of which `m` are already in its text: it gives all of them back.
abbrev Sized : ℕ → ℕ → Result Error Span → Type 0
Sized m n (ok s) = (length s.taken + length s.left ≡ m + n) × (m ≤ length s.taken)
Sized m n (err e) = e ≢ out_of_fuel

pub span-length :
    (p : ℕ → Bool) (cs : Bytes) → length (span p cs).taken + length (span p cs).left ≡ length cs
unfolding span
span-length p [] = refl
span-length p (c ∷ cs) = ground (arith, span-length p cs)

span_pos : (p : ℕ → Bool) (c : ℕ) (cs : Bytes) → p c ≡ true → 1 ≤ length (span p (c ∷ cs)).taken
unfolding span
span_pos p c cs h = ground arith

exponent_digits-Sized :
    (i : ℕ) (text cs : Bytes) → Sized (length text) (length cs) (exponent_digits i text cs)
unfolding exponent_digits
exponent_digits-Sized i text cs =
    ground (arith, span-length is_digit cs, length-append {0} text (span is_digit cs).taken)

-- One byte more in the text is one byte less to scan; so for a whole list of them.
Sized-append :
    (text ds : Bytes) (n : ℕ) (r : Result Error Span)
    → Sized (length (text ++ ds)) n r
    → Sized (length text) (length ds + n) r
Sized-append text ds n (ok s) h = let e = length-append {0} text ds in (omega arith, omega arith)
Sized-append text ds n (err e) h = h

Sized-concat :
    (text : Bytes) (c n : ℕ) (r : Result Error Span)
    → Sized (length (text ++ c ∷ [])) n r
    → Sized (length text) (suc n) r
Sized-concat text c n (ok s) h =
    let e = length-append {0} text (c ∷ []) in (omega arith, omega arith)
Sized-concat text c n (err e) h = h

exponent_sign-Sized :
    (i : ℕ) (text cs : Bytes) → Sized (length text) (length cs) (exponent_sign i text cs)
unfolding exponent_sign
exponent_sign-Sized i text [] = exponent_digits-Sized i text []
exponent_sign-Sized i text (c ∷ cs) = elim (Bool-cases (c == b'-' || c == b'+')) [
  | inl e ↦
      rw e (Sized-concat text c (length cs) _ (exponent_digits-Sized (i + 1) (text ++ c ∷ []) cs))
  | inr e ↦ rw e (exponent_digits-Sized i text (c ∷ cs))
]

exponent-Sized : (i : ℕ) (text cs : Bytes) → Sized (length text) (length cs) (exponent i text cs)
unfolding exponent
exponent-Sized i text [] = omega arith
exponent-Sized i text (c ∷ cs) = elim (Bool-cases (c == b'e' || c == b'E')) [
  | inl e ↦
      rw e (Sized-concat text c (length cs) _ (exponent_sign-Sized (i + 1) (text ++ c ∷ []) cs))
  | inr e ↦ rw e (omega arith)
]

Sized-eq : (m n k : ℕ) (r : Result Error Span) → n ≡ k → Sized m n r → Sized m k r
Sized-eq m n k (ok s) e h = (omega arith, omega arith)
Sized-eq m n k (err x) e h = h

fraction-Sized : (i : ℕ) (text cs : Bytes) → Sized (length text) (length cs) (fraction i text cs)
unfolding fraction
fraction-Sized i text cs =
    let s = span is_digit cs in
    Sized-eq (length text) (length s.taken + length s.left) (length cs) _ (span-length is_digit cs)
      (Sized-append text s.taken (length s.left) _
        (exponent-Sized (i + length s.taken) (text ++ s.taken) s.left))

module _ (last inside : Bool) where
  literal-Advances :
      (t : TokenType) (i m n : ℕ) (r : Result Error Span)
      → Sized m n r
      → 0 < m
      → Advances i (i + (m + n)) (literal last inside t i r)
  literal-Advances t i m n (ok s) h pos = (omega arith, omega arith, (omega arith, omega arith))
  literal-Advances t i m n (err e) h pos = h

  number_end-Advances :
      (i n : ℕ) (s : Span) (left : Bytes)
      → s.left ≡ left
      → length s.taken + length left ≡ n
      → 1 ≤ length s.taken
      → Advances i (i + n) (number_end last inside i s left)
  unfolding number_end
  number_end-Advances i n s [] e h pos = let e' = ap (λ (l : Bytes). length l) e in ground arith
  number_end-Advances i n s (c ∷ more) e h pos = elim (Bool-cases (c == b'.')) [
    | inl dot ↦
        let text = s.taken ++ c ∷ [] in
        let len = length-append {0} s.taken (c ∷ []) in
        let n-eq : length text + length more ≡ n = omega arith in
        rw (dot, ← n-eq)
          (literal-Advances lnum i (length text) (length more) _
            (fraction-Sized (i + length s.taken + 1) text more) (omega arith))
    | inr other ↦
        let e' = ap (λ (l : Bytes). length l) e in
        rw other (omega arith, omega arith, (omega arith, omega arith))
  ]

  number-Advances :
      (i c : ℕ) (cs : Bytes)
      → is_digit c ≡ true
      → Advances i (i + suc (length cs)) (number last inside i (c ∷ cs))
  unfolding number
  number-Advances i c cs d =
      let s = span is_digit (c ∷ cs) in
      number_end-Advances i (suc (length cs)) s s.left refl (span-length is_digit (c ∷ cs))
        (span_pos is_digit c cs d)

  point-Advances : (i : ℕ) (cs : Bytes) → Advances i (i + suc (length cs)) (point last inside i cs)
  unfolding point
  point-Advances i [] = ground arith
  point-Advances i (d ∷ more) = elim (Bool-cases (is_digit d)) [
    | inl e ↦
        let k = length (d ∷ more) in
        let n-eq : 1 + k ≡ suc k = omega arith in
        rw (e, ← n-eq)
          (literal-Advances lnum i 1 k _ (fraction-Sized (i + 1) (b'.' ∷ []) (d ∷ more))
            (omega arith))
    | inr e ↦ rw e (ground arith)
  ]

  word-Advances :
      (i c : ℕ) (cs : Bytes)
      → is_word c ≡ true
      → Advances i (i + suc (length cs)) (ok (word last inside i (c ∷ cs)))
  unfolding word
  word-Advances i c cs h = ground (arith, span-length is_word (c ∷ cs), span_pos is_word c cs h)

  quoted-Advances :
      (q start b e i : ℕ) (val cs : Bytes)
      → b < i
      → i + length cs ≡ e
      → Advances b e (quoted last inside q start val i cs)
  unfolding quoted
  quoted-Advances q start b e i val [] h n = λ x. cc
  quoted-Advances q start b e i val (c ∷ []) h n = ground arith
  quoted-Advances q start b e i val (c ∷ d ∷ rest) h n = ground (
    arith,
    quoted-Advances q start b e (i + 2) (val ++ d ∷ []) rest (omega arith) (omega arith),
    quoted-Advances q start b e (i + 1) (val ++ c ∷ []) (d ∷ rest) (omega arith) (omega arith),
  )

  star-Advances :
      (i : ℕ) (cs : Bytes) → Advances i (i + suc (length cs)) (ok (star last inside i cs))
  unfolding star
  star-Advances i [] = ground arith
  star-Advances i (d ∷ more) = ground arith

  minus_or_arrow-Advances :
      (i : ℕ) (cs : Bytes) → Advances i (i + suc (length cs)) (ok (minus_or_arrow last inside i cs))
  unfolding minus_or_arrow
  minus_or_arrow-Advances i [] = ground arith
  minus_or_arrow-Advances i (d ∷ more) = ground arith

  exclamation-Advances :
      (i : ℕ) (cs : Bytes) → Advances i (i + suc (length cs)) (ok (exclamation last inside i cs))
  unfolding exclamation
  exclamation-Advances i [] = ground arith
  exclamation-Advances i (d ∷ more) = ground arith

  less-Advances :
      (i : ℕ) (cs : Bytes) → Advances i (i + suc (length cs)) (ok (less last inside i cs))
  unfolding less
  less-Advances i [] = ground arith
  less-Advances i (d ∷ more) = ground arith

  greater-Advances :
      (i : ℕ) (cs : Bytes) → Advances i (i + suc (length cs)) (ok (greater last inside i cs))
  unfolding greater
  greater-Advances i [] = ground arith
  greater-Advances i (d ∷ more) = ground arith

  arrow_quote-Advances :
      (i : ℕ) (cs : Bytes) → Advances i (i + suc (length cs)) (ok (arrow_quote last inside i cs))
  unfolding arrow_quote
  arrow_quote-Advances i cs = ground arith

  operator_or_literal-Advances :
      (i c : ℕ) (cs : Bytes)
      → Advances i (i + suc (length cs)) (operator_or_literal last inside i c cs)
  unfolding operator_or_literal
  operator_or_literal-Advances i c cs = ground (
    arith,
    star-Advances i cs,
    minus_or_arrow-Advances i cs,
    exclamation-Advances i cs,
    less-Advances i cs,
    greater-Advances i cs,
    arrow_quote-Advances i cs,
    point-Advances i cs,
    quoted-Advances c (i + 1) i (i + suc (length cs)) (i + 1) [] cs (omega arith) (omega arith),
  )

  non_word-Advances :
      (i c : ℕ) (cs : Bytes) (p : Option TokenType)
      → Advances i (i + suc (length cs)) (non_word last inside i c cs p)
  non_word-Advances i c cs (some t) = ground arith
  non_word-Advances i c cs none = operator_or_literal-Advances i c cs

  letter-is_word : (c : ℕ) → (not (is_alpha c) && not (c == b'_')) ≡ false → is_word c ≡ true
  letter-is_word c h = ground arith

  lex_mark-Advances :
      (i c : ℕ) (cs : Bytes)
      → Advances i (i + suc (length cs)) (
          if is_digit c
          then number last inside i (c ∷ cs)
          else if not (is_alpha c) && not (c == b'_')
          then non_word last inside i c cs (punctuation c)
          else ok (word last inside i (c ∷ cs)))
  lex_mark-Advances i c cs = elim (Bool-cases (is_digit c)) [
    | inl e ↦ rw e (number-Advances i c cs e)
    | inr d ↦ elim (Bool-cases (not (is_alpha c) && not (c == b'_'))) [
      | inl e ↦ rw (d, e) (non_word-Advances i c cs (punctuation c))
      | inr e ↦ rw (d, e) (word-Advances i c cs (letter-is_word c e))
    ]
  ]

  pub lex_one-Advances :
      (i c : ℕ) (cs : Bytes) → Advances i (i + suc (length cs)) (lex_one last inside i c cs)
  unfolding lex_one
  lex_one-Advances i c cs = elim (Bool-cases (is_space c)) [
    | inl space ↦ rw space (omega arith, omega arith, tt)
    | inr e ↦ rw e (lex_mark-Advances i c cs)
  ]
