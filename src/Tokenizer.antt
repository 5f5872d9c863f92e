-- ===== src/Tokenizer.antt =====
-- xmysqlnd/crud_parsers/legacy_tokenizer.cc: Tokenizer::get_tokens, which makes the tokens of an
-- expression. The input from index `i` on is a list, so `i + 1 < size` asks whether a byte
-- follows; a byte above 127 belongs to no class of <cctype>. The loop runs on fuel, a step for
-- each byte and one more, and `out_of_fuel` stands for a loop that did not end in it.
pub mod Tokens
pub mod Rounds
pub mod Numbers
pub mod Operators
pub mod Literals
pub mod Progress
pub mod Totality
pub mod Words
pub mod Tests
use pecl_database_mysql_xdev.Common.{
  ℕ, suc, zero, ◌+◌, Bool, true, false, not, ◌&&◌, ◌||◌, ◌==◌, if◌then◌else◌, List, [], ◌∷◌, ◌++◌,
  Option, none, some, Result, ok, err, ◌>>=◌, Bytes, length, is_digit, is_alpha, is_alnum, is_space,
}
use Tokens.{TokenType, Token}
use Rounds.{Error, unknown_character, out_of_fuel, Round, single}
use Numbers.{number, point, fraction}
use Operators.{star, minus_or_arrow, exclamation, less, greater, punctuation}
use Literals.{quoted, arrow_quote, word}

module _ (last inside : Bool) where
  -- The rest of the ladder for a byte that starts no word, number or space.
  unfoldable pub operator_or_literal : ℕ → ℕ → Bytes → Result Error Round
  unfolding star minus_or_arrow exclamation less greater point quoted arrow_quote
  operator_or_literal i c cs =
      if c == b'-'
      then ok (minus_or_arrow last inside i cs)
      else if c == b'*'
      then ok (star last inside i cs)
      else if c == b'!'
      then ok (exclamation last inside i cs)
      else if c == b'<'
      then ok (less last inside i cs)
      else if c == b'>'
      then ok (greater last inside i cs)
      else if c == b'.'
      then point last inside i cs
      else if c == b'\'' && last
      then ok (arrow_quote last inside i cs)
      else if c == b'"' || c == b'\'' || c == b'`'
      then quoted last inside c (i + 1) [] (i + 1) cs
      else err (unknown_character i)

  abbrev pub non_word : ℕ → ℕ → Bytes → Option TokenType → Result Error Round
  non_word i c cs (some t) = ok (single last inside t i c cs)
  non_word i c cs none = operator_or_literal i c cs

  abbrev blank : ℕ → Bytes → Round
  blank i cs = record {
    token = none;
    arrow_last = last;
    inside_arrow = inside;
    index = i + 1;
    rest = cs;
  }

  -- One round of the loop, at byte `c`.
  unfoldable pub lex_one : ℕ → ℕ → Bytes → Result Error Round
  unfolding fraction number word punctuation operator_or_literal
  lex_one i c cs =
      if is_space c
      then ok (blank i cs)
      else if is_digit c
      then number last inside i (c ∷ cs)
      else if not (is_alpha c) && not (c == b'_')
      then non_word i c cs (punctuation c)
      else ok (word last inside i (c ∷ cs))

abbrev pub push : Option Token → List Token → List Token
push none ts = ts
push (some t) ts = t ∷ ts

-- The loop, from index `i` on.
unfoldable pub lex : ℕ → Bool → Bool → ℕ → Bytes → Result Error (List Token)
unfolding lex_one
lex fuel last inside i [] = ok []
lex zero last inside i (c ∷ cs) = err out_of_fuel
lex (suc fuel) last inside i (c ∷ cs) = do
  r ← lex_one last inside i c cs
  ts ← lex fuel r.arrow_last r.inside_arrow r.index r.rest
  ok (push r.token ts)

unfoldable pub get_tokens : Bytes → Result Error (List Token)
unfolding lex
get_tokens input = lex (length input) false false 0 input
