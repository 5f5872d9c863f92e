-- ===== src/Expression/Cursors.antt =====
-- The cursor over the tokens, of xmysqlnd/crud_parsers/legacy_tokenizer.cc.
use pecl_database_mysql_xdev.Common.{
  ℕ, Bool, true, false, ◌==◌, if◌then◌else◌, List, [], ◌∷◌, Result, ok, err, ◌>>=◌, Bytes, length,
  any,
}
use pecl_database_mysql_xdev.Tokenizer.Tokens.{
  TokenType, Token, value, microsecond, second, minute, hour, day, week, month, quarter, year,
}
use pecl_database_mysql_xdev.Tokenizer.{get_tokens}
use pecl_database_mysql_xdev.Tokenizer.Rounds

-- What `Parser_error` says, with the position it names; and the end of the fuel.
pub data Error : Type 0 where
  tokenizing : Rounds.Error → Error
  no_tokens_left : ℕ → Error
  expected : TokenType → ℕ → Error
  expected_member expected_index negative_index double_asterisk_at_end too_many_parts : ℕ → Error
  bad_lexical_cast at_first_token out_of_fuel : Error

-- `_tokens` and `_pos`.
pub data Cursor : Type 0 where
  cursor : List Token → List Token → Cursor

abbrev pub left : Cursor → List Token
left (cursor before ts) = ts

-- `_tokens[pos]` is there and has the type.
abbrev pub has_type : List Token → TokenType → Bool
has_type [] type = false
has_type (t ∷ ts) type = value t.type == value type

unfoldable pub cur_token_type_is : Cursor → TokenType → Bool
cur_token_type_is (cursor before ts) type = has_type ts type

unfoldable pub next_token_type : Cursor → TokenType → Bool
next_token_type (cursor before []) type = false
next_token_type (cursor before (t ∷ ts)) type = has_type ts type

unfoldable pub tokens_available : Cursor → Bool
tokens_available (cursor before []) = false
tokens_available (cursor before (t ∷ ts)) = true

unfoldable pub assert_tok_position : Cursor → Result Error (Unit {0})
assert_tok_position (cursor before []) = err (no_tokens_left (length before))
assert_tok_position (cursor before (t ∷ ts)) = ok tt

unfoldable pub peek_token : Cursor → Result Error Token
peek_token (cursor before []) = err (no_tokens_left (length before))
peek_token (cursor before (t ∷ ts)) = ok t

unfoldable pub assert_cur_token : TokenType → Cursor → Result Error (Unit {0})
unfolding peek_token
assert_cur_token type c = do
  t ← peek_token c
  if value t.type == value type then ok tt else err (expected type t.pos)

unfoldable pub consume_any_token : Cursor → Result Error (Token × Cursor)
consume_any_token (cursor before []) = err (no_tokens_left (length before))
consume_any_token (cursor before (t ∷ ts)) = ok (t, cursor (t ∷ before) ts)

unfoldable pub consume_token : TokenType → Cursor → Result Error (Bytes × Cursor)
unfolding assert_cur_token consume_any_token
consume_token type c = do
  checked ← assert_cur_token type c
  r ← consume_any_token c
  ok (r.0.text, r.1)

unfoldable pub unget_token : Cursor → Result Error Cursor
unget_token (cursor [] ts) = err at_first_token
unget_token (cursor (t ∷ before) ts) = ok (cursor before (t ∷ ts))

-- `types.find(type) != types.end()`.
unfoldable pub is_type_within_set : List TokenType → Cursor → Result Error Bool
unfolding peek_token
is_type_within_set types c = do t ← peek_token c; ok (any (λ u. value u == value t.type) types)

unfoldable pub is_interval_units_type : Cursor → Result Error Bool
unfolding is_type_within_set
is_interval_units_type c =
    is_type_within_set
      (microsecond ∷ second ∷ minute ∷ hour ∷ day ∷ week ∷ month ∷ quarter ∷ year ∷ []) c

-- The constructor of Expression_parser: `_pos = 0`, then `get_tokens`.
unfoldable pub start : Bytes → Result Error Cursor
unfolding get_tokens
start input = elim (get_tokens input) [ ok ts ↦ ok (cursor [] ts) | err e ↦ err (tokenizing e) ]
