-- ===== src/Expression/ColumnProgress.antt =====
-- The columns of xmysqlnd/crud_parsers/expression_parser.cc: every call ends, and what it accepts.
use pecl_database_mysql_xdev.Common.{
  ℤ, ℕ, zero, suc, ◌<◌, Bool, true, false, if◌then◌else◌, List, [], ◌∷◌, ◌++◌, Option, Result, ok,
  err, ◌>>=◌, Bytes, codes, length, same_text, ltb, arith, Bool-cases, inl, inr,
}
use pecl_database_mysql_xdev.Tokenizer.Tokens.{dot, ident, mul, arrow, quote, dollar}
use pecl_database_mysql_xdev.Expression.Cursors.{
  Error, too_many_parts, Cursor, left, cur_token_type_is, consume_token,
}
use pecl_database_mysql_xdev.Expression.Paths.{document_path}
use pecl_database_mysql_xdev.Expression.Columns.{
  Expr, operator, id, dot_part, more_parts, column_end, column_rest, column_field, arrow_path,
  path_part,
}
use pecl_database_mysql_xdev.Expression.Progress.{
  Takes, Keeps, consume_token-Takes, fail_at-Keeps, Takes-Keeps, Keeps-trans, then-Takes,
  then-Keeps, if-Takes, if-both, document_path-Keeps,
}

id-Takes : (c : Cursor) → Takes c (id c)
unfolding id
id-Takes c =
    if-both c (cur_token_type_is c ident) _ _ (consume_token-Takes ident c)
      (consume_token-Takes mul c)

dot_part-Takes : (c : Cursor) → Takes c (dot_part c)
unfolding dot_part
dot_part-Takes c =
    then-Takes c (consume_token dot c) _ (consume_token-Takes dot c)
      (λ r. Takes-Keeps r.1 _ (id-Takes r.1))

part_step-Keeps :
    (fuel : ℕ) (parts : List Bytes) (c : Cursor) (b : Bool)
    → length (left c) < suc fuel
    → ((more : List Bytes) (d : Cursor) → length (left d) < fuel → Keeps d (more_parts fuel more d))
    → (r : Result Error (Bytes × Cursor)) → Takes c r
    → Keeps c (elim b [
      | true ↦ do part ← r; more_parts fuel (parts ++ part.0 ∷ []) part.1
      | false ↦ ok (parts, c)
    ])
part_step-Keeps fuel parts c false h more r t = omega arith
part_step-Keeps fuel parts c true h more (ok part) t =
    Keeps-trans c part.1 _ (omega arith) (more (parts ++ part.0 ∷ []) part.1 (omega arith))
part_step-Keeps fuel parts c true h more (err e) t = t

more_parts-Keeps :
    (fuel : ℕ) (parts : List Bytes) (c : Cursor)
    → length (left c) < fuel
    → Keeps c (more_parts fuel parts c)
unfolding more_parts
more_parts-Keeps zero parts c h = absurd (omega arith)
more_parts-Keeps (suc fuel) parts c h =
    part_step-Keeps fuel parts c (cur_token_type_is c dot) h (more_parts-Keeps fuel) (dot_part c)
      (dot_part-Takes c)

module _ (lexical_cast : Bytes → Option ℤ) where
  arrow_path-Takes : (c : Cursor) → Takes c (arrow_path lexical_cast c)
  unfolding arrow_path
  arrow_path-Takes c = then-Takes c (consume_token arrow c) _ (consume_token-Takes arrow c) (λ a.
      then-Keeps a.1 (consume_token quote a.1) _ (Takes-Keeps a.1 _ (consume_token-Takes quote a.1))
        (λ q.
          then-Keeps q.1 (consume_token dollar q.1) _
            (Takes-Keeps q.1 _ (consume_token-Takes dollar q.1))
            (λ d.
              then-Keeps d.1 (document_path lexical_cast d.1) _
                (document_path-Keeps lexical_cast d.1)
                (λ path. Takes-Keeps path.1 _ (
                  then-Takes path.1 (consume_token quote path.1) _
                    (consume_token-Takes quote path.1) (λ close. omega arith))))))

  path_part-Keeps : (c : Cursor) → Keeps c (path_part lexical_cast c)
  unfolding path_part
  path_part-Keeps c = if-Takes c (cur_token_type_is c arrow) _ _ (arrow_path-Takes c) (omega arith)

  column_end-Keeps : (parts : List Bytes × Cursor) → Keeps parts.1 (column_end lexical_cast parts)
  unfolding column_end
  column_end-Keeps parts = elim (Bool-cases (ltb 3 (length parts.0))) [
    | inl e ↦ rw e (fail_at-Keeps Expr too_many_parts parts.1 (λ n x. cc))
    | inr e ↦ rw e (
        then-Keeps parts.1 (path_part lexical_cast parts.1) _ (path_part-Keeps parts.1)
          (λ path. omega arith))
  ]

  column_rest-Keeps : (part : Bytes × Cursor) → Keeps part.1 (column_rest lexical_cast part)
  unfolding column_rest
  column_rest-Keeps part =
      then-Keeps part.1 (more_parts (suc (length (left part.1))) (part.0 ∷ []) part.1)
        (column_end lexical_cast)
        (more_parts-Keeps (suc (length (left part.1))) (part.0 ∷ []) part.1 (omega arith))
        column_end-Keeps

  first_part-Keeps :
      (part : Bytes × Cursor) (e : Expr) (b : Bool)
      → Keeps part.1 (if b then ok (e, part.1) else column_rest lexical_cast part)
  first_part-Keeps part e true = omega arith
  first_part-Keeps part e false = column_rest-Keeps part

  -- `column_field` ends: it takes a token or more and returns an expression, or it raises an
  -- error of the source; it never runs out of fuel.
  pub column_field-Takes : (c : Cursor) → Takes c (column_field lexical_cast c)
  unfolding column_field
  column_field-Takes c =
      then-Takes c (id c) _ (id-Takes c)
        (λ part. first_part-Keeps part (operator (codes "*")) (same_text part.0 (codes "*")))
