-- ===== src/Tokenizer/Operators.antt =====
-- The operators of legacy_tokenizer.cc, of one byte or two.
use pecl_database_mysql_xdev.Common.{
  ℕ, ◌+◌, Bool, true, false, not, ◌&&◌, ◌==◌, if◌then◌else◌, [], ◌∷◌, Option, none, some, Bytes,
}
use pecl_database_mysql_xdev.Tokenizer.Tokens.{
  TokenType, placeholder, plus, minus, arrow, doublestar, mul, div, dollar, mod_, eq, bitand, bitor,
  lparen, rparen, lsqbracket, rsqbracket, lcurly, rcurly, neg, comma, colon, ne, bang, lshift, le,
  lt, rshift, ge, gt,
}
use pecl_database_mysql_xdev.Tokenizer.Rounds.{Round, emit, single, double}

module _ (last inside : Bool) where
  -- `next_char_is(i, tok)`.
  abbrev pub next_char_is : Bytes → ℕ → Bool
  next_char_is [] tok = false
  next_char_is (d ∷ more) tok = d == tok

  abbrev pub behind : Bytes → Bytes
  behind [] = []
  behind (d ∷ more) = more

  unfoldable pub star : ℕ → Bytes → Round
  star i cs =
      if next_char_is cs b'*'
      then double last inside doublestar (b'*' ∷ b'*' ∷ []) i (behind cs)
      else single last inside mul i b'*' cs

  unfoldable pub minus_or_arrow : ℕ → Bytes → Round
  minus_or_arrow i cs =
      if not last && next_char_is cs b'>'
      then emit arrow (b'-' ∷ b'>' ∷ []) (i + 1) true inside (i + 2) (behind cs)
      else single last inside minus i b'-' cs

  unfoldable pub exclamation : ℕ → Bytes → Round
  exclamation i cs =
      if next_char_is cs b'='
      then double last inside ne (b'!' ∷ b'=' ∷ []) i (behind cs)
      else single last inside bang i b'!' cs

  unfoldable pub less : ℕ → Bytes → Round
  less i cs =
      if next_char_is cs b'<'
      then double last inside lshift (b'<' ∷ b'<' ∷ []) i (behind cs)
      else if next_char_is cs b'='
      then double last inside le (b'<' ∷ b'=' ∷ []) i (behind cs)
      else if next_char_is cs b'>'
      then double last inside ne (b'!' ∷ b'=' ∷ []) i (behind cs)
      else single last inside lt i b'<' cs

  unfoldable pub greater : ℕ → Bytes → Round
  greater i cs =
      if next_char_is cs b'>'
      then double last inside rshift (b'>' ∷ b'>' ∷ []) i (behind cs)
      else if next_char_is cs b'='
      then double last inside ge (b'>' ∷ b'=' ∷ []) i (behind cs)
      else single last inside gt i b'>' cs

-- The tokens of one byte that no other byte can lengthen.
unfoldable pub punctuation : ℕ → Option TokenType
punctuation c =
    if c == b'?'
    then some placeholder
    else if c == b'+'
    then some plus
    else if c == b'/'
    then some div
    else if c == b'$'
    then some dollar
    else if c == b'%'
    then some mod_
    else if c == b'='
    then some eq
    else if c == b'&'
    then some bitand
    else if c == b'|'
    then some bitor
    else if c == b'('
    then some lparen
    else if c == b')'
    then some rparen
    else if c == b'['
    then some lsqbracket
    else if c == b']'
    then some rsqbracket
    else if c == b'{'
    then some lcurly
    else if c == b'}'
    then some rcurly
    else if c == b'~'
    then some neg
    else if c == b','
    then some comma
    else if c == b':'
    then some colon
    else none
