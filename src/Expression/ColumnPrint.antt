-- ===== src/Expression/ColumnPrint.antt =====
-- Columns spelled as tokens, read back by xmysqlnd/crud_parsers/expression_parser.cc.
use pecl_database_mysql_xdev.Common.{
  ℤ, pos, ℕ, suc, ◌^◌, ◌<◌, ◌≡◌, refl, Bool, false, List, [], ◌∷◌, ◌++◌, Option, none, some, ok,
  Bytes, codes, length, same_text, ◌∙◌, ltb,
}
use pecl_database_mysql_xdev.Tokenizer.Tokens.{Token, value, dot, ident, arrow, quote, dollar}
use pecl_database_mysql_xdev.Expression.Cursors.{
  Cursor, cursor, left, consume_token, cur_token_type_is,
}
use pecl_database_mysql_xdev.Expression.Paths.{DocumentPathItem, ends_in_double}
use pecl_database_mysql_xdev.Expression.Columns.{
  ColumnIdentifier, identifier_expr, column_of, column_field, column_rest, more_parts, dot_part, id,
  column_end, arrow_path, path_part,
}
use pecl_database_mysql_xdev.Expression.Spelling.{
  Kind, mark, place, walk, IsPath, IsName, IsColumn, spell_path, spell_arrow, spell_end,
  spell_column,
}
use pecl_database_mysql_xdev.Expression.Print.{document_path-spell}

module _ (lexical_cast : Bytes → Option ℤ) (print : ℕ → Bytes)
    (cast-print : (n : ℕ) → n < 2 ^ 31 → lexical_cast (print n) ≡ some (pos n))
    (is_word : Bytes → Bool) where
  -- The closing quote behind a path.
  consume_token-walk :
      (ks : List Kind) (at : ℕ → ℕ) (before : List Token)
      → consume_token quote (walk ks at before ((quote, codes "'") ∷ []))
        ≡ ok (codes "'", walk (ks ++ (quote, codes "'") ∷ []) at before [])
  unfolding consume_token value
  consume_token-walk [] at before = refl
  consume_token-walk (k ∷ ks) at before =
      consume_token-walk ks (λ i. at (suc i)) (mark k (at 0) ∷ before)

  arrow_path-spell :
      (path : List DocumentPathItem) (at : ℕ → ℕ) (before : List Token)
      → IsPath path
      → ends_in_double path ≡ false
      → arrow_path lexical_cast (cursor before (place at (spell_arrow print is_word path)))
        ≡ ok (path, walk (spell_arrow print is_word path) at before [])
  unfolding arrow_path consume_token value
  arrow_path-spell path at before p e =
      rw
        (
          document_path-spell lexical_cast print cast-print is_word path
              (λ i. at (suc (suc (suc i))))
              (mark (dollar, codes "$") (at 2)
                ∷ mark (quote, codes "'") (at 1)
                ∷ mark (arrow, codes "->") (at 0)
                ∷ before)
              ((quote, codes "'") ∷ []) p (refl, refl, refl) e,
          consume_token-walk (spell_path print is_word path) (λ i. at (suc (suc (suc i))))
              (mark (dollar, codes "$") (at 2)
                ∷ mark (quote, codes "'") (at 1)
                ∷ mark (arrow, codes "->") (at 0)
                ∷ before),
        )
        refl

  path_part-spell :
      (path : List DocumentPathItem) (at : ℕ → ℕ) (before : List Token)
      → IsPath path
      → ends_in_double path ≡ false
      → path_part lexical_cast (cursor before (place at (spell_end print is_word path)))
        ≡ ok (path, walk (spell_end print is_word path) at before [])
  unfolding path_part cur_token_type_is value
  path_part-spell [] at before p e = refl
  path_part-spell (x ∷ xs) at before p e = arrow_path-spell (x ∷ xs) at before p e

  more_parts-stop :
      (fuel : ℕ) (parts : List Bytes) (at : ℕ → ℕ) (before : List Token)
      (path : List DocumentPathItem)
      → more_parts (suc fuel) parts (cursor before (place at (spell_end print is_word path)))
        ≡ ok (parts, cursor before (place at (spell_end print is_word path)))
  unfolding more_parts dot_part id consume_token cur_token_type_is value
  more_parts-stop fuel parts at before [] = refl
  more_parts-stop fuel parts at before (x ∷ xs) = refl

  column_end-spell :
      (parts : List Bytes) (at : ℕ → ℕ) (before : List Token) (path : List DocumentPathItem)
      → ltb 3 (length parts) ≡ false
      → IsPath path
      → ends_in_double path ≡ false
      → column_end lexical_cast (parts, cursor before (place at (spell_end print is_word path)))
        ≡ ok (
          identifier_expr (column_of parts path),
          walk (spell_end print is_word path) at before [],
        )
  unfolding column_end
  column_end-spell parts at before path h p e = rw (h, path_part-spell path at before p e) refl

  -- One more part of the name.
  more_parts-step :
      (fuel : ℕ) (parts : List Bytes) (name : Bytes) (at : ℕ → ℕ) (before : List Token)
      (rest : List Kind)
      → more_parts
          (suc fuel)
          parts
          (cursor before (place at ((dot, codes ".") ∷ (ident, name) ∷ rest)))
        ≡ more_parts fuel
            (parts ++ name ∷ [])
            (walk ((dot, codes ".") ∷ (ident, name) ∷ []) at before rest)
  unfolding more_parts dot_part id consume_token cur_token_type_is value
  more_parts-step fuel parts name at before rest = refl

  -- The first part, if it is not the word `*`.
  column_field-first :
      (name : Bytes) (at : ℕ → ℕ) (rest : List Kind)
      → same_text name (codes "*") ≡ false
      → column_field lexical_cast (cursor [] (place at ((ident, name) ∷ rest)))
        ≡ column_rest lexical_cast (name, walk ((ident, name) ∷ []) at [] rest)
  unfolding id consume_token cur_token_type_is column_field value
  column_field-first name at rest h = rw h refl

  column_rest-spell :
      (parts : List Bytes) (c : Cursor) (name : Bytes) (at : ℕ → ℕ) (before : List Token)
      (path : List DocumentPathItem)
      → more_parts (suc (length (left c))) (name ∷ []) c
        ≡ ok (parts, cursor before (place at (spell_end print is_word path)))
      → ltb 3 (length parts) ≡ false
      → IsPath path
      → ends_in_double path ≡ false
      → column_rest lexical_cast (name, c)
        ≡ ok (
          identifier_expr (column_of parts path),
          walk (spell_end print is_word path) at before [],
        )
  unfolding column_rest
  column_rest-spell parts c name at before path m h p e =
      rw (m, column_end-spell parts at before path h p e) refl

  column_parts-spell :
      (name : Bytes) (table schema : Option Bytes) (path : List DocumentPathItem) (at : ℕ → ℕ)
      → IsName schema table name
      → IsPath path
      → ends_in_double path ≡ false
      → let c : ColumnIdentifier = record {
        name = name;
        table_name = table;
        schema_name = schema;
        document_path = path;
      } in
        column_field lexical_cast (cursor [] (place at (spell_column print is_word c)))
        ≡ ok (identifier_expr c, walk (spell_column print is_word c) at [] [])
  column_parts-spell name none none path at n p e =
      column_field-first name at (spell_end print is_word path) n
      ∙ column_rest-spell (name ∷ []) _ name _ _ path (more_parts-stop _ (name ∷ []) _ _ path) refl
          p e
  column_parts-spell name (some table) none path at n p e =
      column_field-first table at ((dot, codes ".") ∷ (ident, name) ∷ spell_end print is_word path)
        n
      ∙ column_rest-spell (table ∷ name ∷ []) _ table _ _ path
          (more_parts-step _ (table ∷ []) name (λ i. at (suc i)) _ (spell_end print is_word path)
            ∙ more_parts-stop _ (table ∷ name ∷ []) _ _ path)
          refl p e
  column_parts-spell name (some table) (some schema) path at n p e =
      column_field-first schema at
        ((dot, codes ".")
          ∷ (ident, table)
          ∷ (dot, codes ".")
          ∷ (ident, name)
          ∷ spell_end print is_word path)
        n
      ∙ column_rest-spell (schema ∷ table ∷ name ∷ []) _ schema _ _ path
          (more_parts-step _ (schema ∷ []) table (λ i. at (suc i)) _
              ((dot, codes ".") ∷ (ident, name) ∷ spell_end print is_word path)
            ∙ (more_parts-step _ (schema ∷ table ∷ []) name (λ i. at (suc (suc (suc i)))) _
                  (spell_end print is_word path)
                ∙ more_parts-stop _ (schema ∷ table ∷ name ∷ []) _ _ path))
          refl p e
  column_parts-spell name none (some schema) path at n p e = absurd n

  -- A column, spelled as tokens with its path behind an arrow, is read back by `column_field`,
  -- which takes all the tokens. Its first part is not `*`, a schema stands before a table only,
  -- the indices are below 2 ^ 31, no item is `[*]` and the path does not end in `**`.
  pub column_field-spell :
      (c : ColumnIdentifier) (at : ℕ → ℕ)
      → IsColumn c
      → column_field lexical_cast (cursor [] (place at (spell_column print is_word c)))
        ≡ ok (identifier_expr c, walk (spell_column print is_word c) at [] [])
  column_field-spell c at (n, p, e) =
      column_parts-spell c.name c.table_name c.schema_name c.document_path at n p e
