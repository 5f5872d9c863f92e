-- ===== src/Tokenizer/Numbers.antt =====
-- The numeric literals of legacy_tokenizer.cc: runs of digits, a point, an exponent.
use pecl_database_mysql_xdev.Common.{
  ℕ, ◌+◌, Bool, ◌||◌, ◌==◌, if◌then◌else◌, [], ◌∷◌, ◌++◌, Result, ok, err, Bytes, length, is_digit,
}
use pecl_database_mysql_xdev.Tokenizer.Tokens.{lnum, linteger, dot}
use pecl_database_mysql_xdev.Tokenizer.Rounds.{
  Error, missing_exponent, Round, Span, span, literal, single,
}

-- A run of digits behind `text`, which must not be empty behind an exponent: `i == j`.
unfoldable pub exponent_digits : ℕ → Bytes → Bytes → Result Error Span
unfolding span
exponent_digits i text cs =
    let s = span is_digit cs in
    elim s.taken [
      | [] ↦ err (missing_exponent i)
      | d ∷ ds ↦ ok (record { taken = text ++ s.taken; left = s.left })
    ]

-- The sign of an exponent.
unfoldable pub exponent_sign : ℕ → Bytes → Bytes → Result Error Span
unfolding exponent_digits
exponent_sign i text [] = exponent_digits i text []
exponent_sign i text (c ∷ cs) =
    if c == b'-' || c == b'+'
    then exponent_digits (i + 1) (text ++ c ∷ []) cs
    else exponent_digits i text (c ∷ cs)

-- `toupper(_input[i]) == 'E'`, and what follows it.
unfoldable pub exponent : ℕ → Bytes → Bytes → Result Error Span
unfolding exponent_sign
exponent i text [] = ok (record { taken = text; left = [] })
exponent i text (c ∷ cs) =
    if c == b'e' || c == b'E'
    then exponent_sign (i + 1) (text ++ c ∷ []) cs
    else ok (record { taken = text; left = c ∷ cs })

-- The digits behind the point, and an exponent. `i` is the index of `cs`, `text` is what stands
-- before it.
unfoldable pub fraction : ℕ → Bytes → Bytes → Result Error Span
unfolding exponent
fraction i text cs =
    let s = span is_digit cs in exponent (i + length s.taken) (text ++ s.taken) s.left

module _ (last inside : Bool) where
  -- Behind the first digits `s`: a point makes the literal a float.
  unfoldable pub number_end : ℕ → Span → Bytes → Result Error Round
  number_end i s [] = literal last inside linteger i (ok s)
  number_end i s (c ∷ more) =
      if c == b'.'
      then literal last inside lnum i (fraction (i + length s.taken + 1) (s.taken ++ c ∷ []) more)
      else literal last inside linteger i (ok s)

  -- `isdigit(c)`.
  unfoldable pub number : ℕ → Bytes → Result Error Round
  unfolding number_end
  number i cs = let s = span is_digit cs in number_end i s s.left

  -- `c == '.'`: a number that begins with its point, or a dot.
  unfoldable pub point : ℕ → Bytes → Result Error Round
  point i [] = ok (single last inside dot i b'.' [])
  point i (d ∷ more) =
      if is_digit d
      then literal last inside lnum i (fraction (i + 1) (b'.' ∷ []) (d ∷ more))
      else ok (single last inside dot i b'.' (d ∷ more))
