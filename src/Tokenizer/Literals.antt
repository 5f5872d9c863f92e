-- ===== src/Tokenizer/Literals.antt =====
-- Literals in quotes, the quotes of an arrow, identifiers and reserved words of
-- legacy_tokenizer.cc.
use pecl_database_mysql_xdev.Common.{
  ℕ, ◌+◌, Bool, true, false, not, ◌&&◌, ◌||◌, ◌==◌, if◌then◌else◌, [], ◌∷◌, ◌++◌, Option, none,
  some, Result, ok, err, Bytes, length, is_alnum,
}
use pecl_database_mysql_xdev.Tokenizer.Tokens.{TokenType, reserved_word, quote, ident, lstring}
use pecl_database_mysql_xdev.Tokenizer.Rounds.{Error, unterminated, Round, span, emit}

abbrev pub is_word : ℕ → Bool
is_word c = is_alnum c || c == b'_'

abbrev pub word_type : Option TokenType → TokenType
word_type (some t) = t
word_type none = ident

module _ (last inside : Bool) where
  -- A literal in quotes. Its index is that of the closing quote.
  unfoldable pub quoted_token : ℕ → Bytes → ℕ → Bytes → Round
  quoted_token q val i rest = record {
    token = some (record { type = if q == b'`' then ident else lstring; text = val; pos = i });
    arrow_last = last;
    inside_arrow = inside;
    index = i + 1;
    rest = rest;
  }

  -- The loop over a literal in quotes `q` that began at `start`; `val` is what it has read before
  -- index `i`. A doubled quote and, but for a back-tick literal, a backslash stand for the byte
  -- behind them. At the last byte of the input a quote and a backslash both end the literal.
  unfoldable pub quoted : ℕ → ℕ → Bytes → ℕ → Bytes → Result Error Round
  unfolding quoted_token
  quoted q start val i [] = err (unterminated start)
  quoted q start val i (c ∷ []) =
      if c == q || (c == b'\\' && not (q == b'`'))
      then ok (quoted_token q val i [])
      else err (unterminated start)
  quoted q start val i (c ∷ d ∷ rest) =
      let escaped = quoted q start (val ++ d ∷ []) (i + 2) rest in
      let plain = quoted q start (val ++ c ∷ []) (i + 1) (d ∷ rest) in
      if c == q && not (d == q)
      then ok (quoted_token q val i (d ∷ rest))
      else if c == q || (c == b'\\' && not (q == b'`'))
      then escaped
      else plain

  -- `c == '\'' && arrow_last`: the first quote opens the path, the second ends the arrow.
  unfoldable pub arrow_quote : ℕ → Bytes → Round
  arrow_quote i cs =
      if inside
      then emit quote (b'\'' ∷ []) i false false (i + 1) cs
      else emit quote (b'\'' ∷ []) i last true (i + 1) cs

  -- An identifier or a reserved word.
  unfoldable pub word : ℕ → Bytes → Round
  unfolding span reserved_word
  word i cs =
      let s = span is_word cs in
      let after = i + length s.taken in
      emit (word_type (reserved_word s.taken)) s.taken after last inside after s.left
