-- ===== src/Expression/Paths.antt =====
-- Document paths, of xmysqlnd/crud_parsers/expression_parser.cc.
use pecl_database_mysql_xdev.Common.{
  ℤ, pos, negsuc, ℕ, zero, suc, Bool, true, false, if◌then◌else◌, List, [], ◌∷◌, ◌++◌, Option, none,
  some, Result, ok, err, ◌>>=◌, Bytes, length,
}
use pecl_database_mysql_xdev.Tokenizer.Tokens.{
  TokenType, dot, ident, lstring, mul, lsqbracket, rsqbracket, linteger, doublestar,
}
use pecl_database_mysql_xdev.Expression.Cursors.{
  Error, expected_member, expected_index, negative_index, double_asterisk_at_end, bad_lexical_cast,
  out_of_fuel, Cursor, left, cur_token_type_is, peek_token, consume_token,
}

-- `Mysqlx::Expr::DocumentPathItem`: the type with the value or the index that is set for it.
pub data DocumentPathItem : Type 0 where
  member member_asterisk : Bytes → DocumentPathItem
  array_index : ℕ → DocumentPathItem
  array_index_asterisk double_asterisk : DocumentPathItem

-- A member whose name is the next token, of the given type.
abbrev pub take_member :
    (Bytes → DocumentPathItem) → TokenType → Cursor → Result Error (DocumentPathItem × Cursor)
take_member make type c = do name ← consume_token type c; ok (make name.0, name.1)

abbrev pub fail_at {ℓ} : {A : Type ℓ} → (ℕ → Error) → Cursor → Result Error A
fail_at error c = do tok ← peek_token c; err (error tok.pos)

-- What may follow the dot.
unfoldable pub member_name : Cursor → Result Error (DocumentPathItem × Cursor)
member_name c =
    if cur_token_type_is c ident
    then take_member member ident c
    else if cur_token_type_is c lstring
    then take_member member lstring c
    else if cur_token_type_is c mul
    then take_member member_asterisk mul c
    else fail_at expected_member c

unfoldable pub docpath_member : Cursor → Result Error (DocumentPathItem × Cursor)
docpath_member c = do r ← consume_token dot c; member_name r.1

-- `lexical_cast<int>`, and the test of its sign.
abbrev pub index_of : ℕ → Option ℤ → Result Error ℕ
index_of at none = err bad_lexical_cast
index_of at (some (pos n)) = ok n
index_of at (some (negsuc n)) = err (negative_index at)

abbrev pub ends_in_double : List DocumentPathItem → Bool
ends_in_double [] = false
ends_in_double (double_asterisk ∷ []) = true
ends_in_double (item ∷ []) = false
ends_in_double (item ∷ next ∷ items) = ends_in_double (next ∷ items)

-- The test behind the loop.
abbrev pub check_end :
    List DocumentPathItem × Cursor → Result Error (List DocumentPathItem × Cursor)
check_end r = if ends_in_double r.0 then fail_at double_asterisk_at_end r.1 else ok r

module _ (lexical_cast : Bytes → Option ℤ) where
  -- What may follow the bracket; `at` is the position of its token.
  unfoldable pub array_index_loc : ℕ → Cursor → Result Error (DocumentPathItem × Cursor)
  array_index_loc at c = do
    text ← consume_token linteger c
    v ← index_of at (lexical_cast text.0)
    close ← consume_token rsqbracket text.1
    ok (array_index v, close.1)

  unfoldable pub array_loc : ℕ → Cursor → Result Error (DocumentPathItem × Cursor)
  array_loc at c =
      if cur_token_type_is c mul
      then take_member (λ text. array_index_asterisk) rsqbracket c
      else if cur_token_type_is c linteger
      then array_index_loc at c
      else err (expected_index at)

  unfoldable pub docpath_array_loc : Cursor → Result Error (DocumentPathItem × Cursor)
  docpath_array_loc c = do
    r ← consume_token lsqbracket c
    tok ← peek_token r.1
    array_loc tok.pos r.1

  -- The item that the current token begins, or none.
  unfoldable pub path_item : Cursor → Option (Result Error (DocumentPathItem × Cursor))
  path_item c =
      if cur_token_type_is c dot
      then some (docpath_member c)
      else if cur_token_type_is c lsqbracket
      then some (docpath_array_loc c)
      else if cur_token_type_is c doublestar
      then some (take_member (λ text. double_asterisk) doublestar c)
      else none

  -- The loop `while (true)`, which adds to the items it is given.
  unfoldable pub path_items :
      ℕ → List DocumentPathItem → Cursor → Result Error (List DocumentPathItem × Cursor)
  path_items zero items c = err out_of_fuel
  path_items (suc fuel) items c = elim (path_item c) [
    | none ↦ ok (items, c)
    | some (ok r) ↦ path_items fuel (items ++ r.0 ∷ []) r.1
    | some (err e) ↦ err e
  ]

  unfoldable pub document_path : Cursor → Result Error (List DocumentPathItem × Cursor)
  document_path c = do r ← path_items (suc (length (left c))) [] c; check_end r
