-- ===== src/Tokenizer/Rounds.antt =====
-- What one round of the loop of Tokenizer::get_tokens makes, in
-- xmysqlnd/crud_parsers/legacy_tokenizer.cc.
use pecl_database_mysql_xdev.Common.{
  ℕ, ◌+◌, Bool, if◌then◌else◌, [], ◌∷◌, Option, some, Result, ok, ◌>>=◌, Bytes, length,
}
use pecl_database_mysql_xdev.Tokenizer.Tokens.{TokenType, Token}

-- What `Parser_error` says, with the index that it names.
pub data Error : Type 0 where
  missing_exponent unterminated unknown_character : ℕ → Error
  out_of_fuel : Error

-- What one round of the loop has made: a token or none, the two flags, and the index and the
-- input from which the next round starts.
pub record Round : Type 0 where
  pub token : Option Token
  pub arrow_last : Bool
  pub inside_arrow : Bool
  pub index : ℕ
  pub rest : Bytes

-- The bytes up to the first that fails `p`, and those from it on.
pub record Span : Type 0 where
  pub taken : Bytes
  pub left : Bytes

unfoldable pub span : (ℕ → Bool) → Bytes → Span
span p [] = record { taken = []; left = [] }
span p (c ∷ cs) =
    let s = span p cs in
    if p c
    then record { taken = c ∷ s.taken; left = s.left }
    else record { taken = []; left = c ∷ cs }

-- A round that pushes one token: the next one starts at index `i + length text`.
abbrev pub emit : TokenType → Bytes → ℕ → Bool → Bool → ℕ → Bytes → Round
emit t text pos last inside index rest = record {
  token = some (record { type = t; text = text; pos = pos });
  arrow_last = last;
  inside_arrow = inside;
  index = index;
  rest = rest;
}

module _ (last inside : Bool) where
  -- A literal that `scan` found at index `i`; its position is the index behind it.
  abbrev pub literal : TokenType → ℕ → Result Error Span → Result Error Round
  literal t i scan = do
    s ← scan
    ok (emit t s.taken (i + length s.taken) last inside (i + length s.taken) s.left)

  -- One byte that is a token.
  abbrev pub single : TokenType → ℕ → ℕ → Bytes → Round
  single t i c cs = emit t (c ∷ []) i last inside (i + 1) cs

  -- Two bytes that are a token, whose text may be spelled otherwise; its position is that of the
  -- second byte.
  abbrev pub double : TokenType → Bytes → ℕ → Bytes → Round
  double t text i more = emit t text (i + 1) last inside (i + 2) more
