-- ===== src/Expression/Tests.antt =====
-- Runs of the parser of column identifiers.
use pecl_database_mysql_xdev.Common.{
  ℤ, pos, ℕ, ◌-◌, ◌+◌, ◌^◌, ◌<◌, arith, ap, ◌≡◌, refl, true, false, List, [], ◌∷◌, ◌++◌, Option,
  none, some, Result, ok, err, ◌>>=◌, Bytes, codes, same_text,
}
use pecl_database_mysql_xdev.Tokenizer.Tokens.{rsqbracket, value, quote}
use pecl_database_mysql_xdev.Expression.Cursors.{Error, expected, start, cursor}
use pecl_database_mysql_xdev.Expression.Paths.{
  DocumentPathItem, member, array_index, double_asterisk, document_path,
}
use pecl_database_mysql_xdev.Expression.Columns.{
  Expr, ColumnIdentifier, identifier_expr, column_field,
}
use pecl_database_mysql_xdev.Expression.Spelling.{place, walk, spell_path, spell_column}
use pecl_database_mysql_xdev.Expression.Print.{
  document_path-spell, spell_asterisk, document_path-asterisk,
}
use pecl_database_mysql_xdev.Expression.ColumnPrint.{column_field-spell}
use pecl_database_mysql_xdev.Expression.Progress.{Takes}
use pecl_database_mysql_xdev.Expression.ColumnProgress.{column_field-Takes}

-- The value of one digit.
abbrev digit : Bytes → Option ℤ
digit (c ∷ []) = some (pos (c - b'0'))
digit cs = none

parse : Bytes → Result Error Expr
unfolding start column_field
parse input = do c ← start input; r ← column_field digit c; ok r.0

run_path :
    parse (codes "t.doc->'$.a[3]'")
    ≡ ok (
        identifier_expr (record {
          name = codes "doc";
          table_name = some (codes "t");
          schema_name = none;
          document_path = member (codes "a") ∷ array_index 3 ∷ [];
        }))
unfolding parse value
run_path = refl

run_asterisk : parse (codes "doc->'$[*]'") ≡ err (expected rsqbracket 8)
unfolding parse value
run_asterisk = refl

-- Numerals of one digit, which may be as large as it needs to be.
abbrev print : ℕ → Bytes
print n = (b'0' + n) ∷ []

digit-print : (n : ℕ) → n < 2 ^ 31 → digit (print n) ≡ some (pos n)
digit-print n h = ap (λ k. some (pos k)) (omega arith)

abbrev path : List DocumentPathItem
path = member (codes "a") ∷ double_asterisk ∷ array_index 3 ∷ []

abbrev column : ColumnIdentifier
column = record {
  name = codes "doc";
  table_name = some (codes "t");
  schema_name = none;
  document_path = path;
}

document_path-spell_example :
    document_path digit
      (cursor [] (place (λ i. i) (spell_path print (λ w. false) path ++ (quote, codes "'") ∷ [])))
    ≡ ok (path, walk (spell_path print (λ w. false) path) (λ i. i) [] ((quote, codes "'") ∷ []))
unfolding value
document_path-spell_example =
    document_path-spell digit print digit-print (λ w. false) path (λ i. i) []
      ((quote, codes "'") ∷ []) (tt, (tt, (omega arith, tt))) (refl, refl, refl) refl

column_field-spell_example :
    column_field digit (cursor [] (place (λ i. i) (spell_column print (λ w. true) column)))
    ≡ ok (identifier_expr column, walk (spell_column print (λ w. true) column) (λ i. i) [] [])
unfolding same_text
column_field-spell_example =
    column_field-spell digit print digit-print (λ w. true) column (λ i. i)
      (refl, (tt, (tt, (omega arith, tt))), refl)

document_path-asterisk_example :
    (p : ℕ) × (document_path digit
        (cursor [] (place (λ i. i) (spell_asterisk digit print digit-print (λ w. true) path ++ [])))
      ≡ err (expected rsqbracket p))
document_path-asterisk_example =
    document_path-asterisk digit print digit-print (λ w. true) path (λ i. i) [] []
      (tt, (tt, (omega arith, tt)))

column_field-Takes_example :
    Takes
      (cursor [] (place (λ i. i) (spell_column print (λ w. true) column)))
      (column_field digit (cursor [] (place (λ i. i) (spell_column print (λ w. true) column))))
column_field-Takes_example =
    column_field-Takes digit (cursor [] (place (λ i. i) (spell_column print (λ w. true) column)))
