-- ===== src/Expression/Columns.antt =====
-- Identifiers and columns, of xmysqlnd/crud_parsers/expression_parser.cc.
use pecl_database_mysql_xdev.Common.{
  ℤ, ℕ, zero, suc, true, false, if◌then◌else◌, List, [], ◌∷◌, ◌++◌, Option, none, some, Result, ok,
  err, ◌>>=◌, Bytes, codes, length, same_text, ltb,
}
use pecl_database_mysql_xdev.Tokenizer.Tokens.{dot, ident, mul, arrow, quote, dollar}
use pecl_database_mysql_xdev.Expression.Cursors.{
  Error, too_many_parts, out_of_fuel, Cursor, left, cur_token_type_is, next_token_type, peek_token,
  assert_cur_token, consume_token,
}
use pecl_database_mysql_xdev.Expression.Paths.{
  DocumentPathItem, fail_at, member_name, docpath_member, array_index_loc, array_loc,
  docpath_array_loc, path_item, path_items, document_path,
}

-- `Mysqlx::Expr::Identifier`.
pub record Identifier : Type 0 where
  pub name : Bytes
  pub schema_name : Option Bytes

-- The schema before the dot, if there is one.
unfoldable pub schema_part : Cursor → Result Error (Option Bytes × Cursor)
unfolding consume_token
schema_part c = do
  schema ← consume_token ident c
  r ← consume_token dot schema.1
  ok (some schema.0, r.1)

unfoldable pub identifier : Cursor → Result Error (Identifier × Cursor)
unfolding assert_cur_token next_token_type consume_token schema_part
identifier c = do
  checked ← assert_cur_token ident c
  schema ← if next_token_type c dot then schema_part c else ok (none, c)
  name ← consume_token ident schema.1
  ok (record { name = name.0; schema_name = schema.0 }, name.1)

unfoldable pub id : Cursor → Result Error (Bytes × Cursor)
unfolding consume_token cur_token_type_is
id c = if cur_token_type_is c ident then consume_token ident c else consume_token mul c

-- `Mysqlx::Expr::ColumnIdentifier`.
pub record ColumnIdentifier : Type 0 where
  pub name : Bytes
  pub table_name : Option Bytes
  pub schema_name : Option Bytes
  pub document_path : List DocumentPathItem

-- What `column_field` makes of `Mysqlx::Expr::Expr`: the operator `*`, or an identifier.
pub data Expr : Type 0 where
  operator : Bytes → Expr
  identifier_expr : ColumnIdentifier → Expr

-- A dot and the part behind it.
unfoldable pub dot_part : Cursor → Result Error (Bytes × Cursor)
dot_part c = do r ← consume_token dot c; id r.1

-- The parts behind the first one, while a dot follows.
unfoldable pub more_parts : ℕ → List Bytes → Cursor → Result Error (List Bytes × Cursor)
more_parts zero parts c = err out_of_fuel
more_parts (suc fuel) parts c = elim (cur_token_type_is c dot) [
  | true ↦ do part ← dot_part c; more_parts fuel (parts ++ part.0 ∷ []) part.1
  | false ↦ ok (parts, c)
]

-- The loop over the parts from the last to the first.
abbrev pub column_of : List Bytes → List DocumentPathItem → ColumnIdentifier
column_of (name ∷ []) path = record {
  name = name;
  table_name = none;
  schema_name = none;
  document_path = path;
}
column_of (table ∷ name ∷ []) path = record {
  name = name;
  table_name = some table;
  schema_name = none;
  document_path = path;
}
column_of (schema ∷ table ∷ name ∷ rest) path = record {
  name = name;
  table_name = some table;
  schema_name = some schema;
  document_path = path;
}
column_of [] path = record {
  name = [];
  table_name = none;
  schema_name = none;
  document_path = path;
}

module _ (lexical_cast : Bytes → Option ℤ) where
  -- The arrow and the path in quotes.
  unfoldable pub arrow_path : Cursor → Result Error (List DocumentPathItem × Cursor)
  arrow_path c = do
    a ← consume_token arrow c
    q ← consume_token quote a.1
    d ← consume_token dollar q.1
    path ← document_path lexical_cast d.1
    close ← consume_token quote path.1
    ok (path.0, close.1)

  unfoldable pub path_part : Cursor → Result Error (List DocumentPathItem × Cursor)
  path_part c = if cur_token_type_is c arrow then arrow_path c else ok ([], c)

  -- What follows the parts.
  unfoldable pub column_end : List Bytes × Cursor → Result Error (Expr × Cursor)
  column_end parts =
      if ltb 3 (length parts.0)
      then fail_at too_many_parts parts.1
      else do path ← path_part parts.1; ok (identifier_expr (column_of parts.0 path.0), path.1)

  -- What `column_field` makes once it has its first part.
  unfoldable pub column_rest : Bytes × Cursor → Result Error (Expr × Cursor)
  column_rest part = do
    parts ← more_parts (suc (length (left part.1))) (part.0 ∷ []) part.1
    column_end parts

  unfoldable pub column_field : Cursor → Result Error (Expr × Cursor)
  unfolding member_name docpath_member array_index_loc array_loc docpath_array_loc path_item
      path_items document_path consume_token peek_token cur_token_type_is id dot_part more_parts
      arrow_path path_part column_end column_rest same_text
  column_field c = do
    part ← id c
    if same_text part.0 (codes "*") then ok (operator (codes "*"), part.1) else column_rest part
