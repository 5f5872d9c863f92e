-- ===== src/Expression/Spelling.antt =====
-- Document paths and columns spelled as tokens.
use pecl_database_mysql_xdev.Common.{
  ℕ, suc, ◌^◌, ◌≤◌, ◌<◌, ◌≡◌, refl, Bool, false, ◌==◌, if◌then◌else◌, List, [], ◌∷◌, ◌++◌, Option,
  none, some, Bytes, codes, length, length-append, same_text, arith,
}
use pecl_database_mysql_xdev.Tokenizer.Tokens.{
  TokenType, Token, value, dot, ident, lstring, mul, lsqbracket, rsqbracket, linteger, doublestar,
  arrow, quote, dollar,
}
use pecl_database_mysql_xdev.Expression.Cursors.{Cursor, cursor}
use pecl_database_mysql_xdev.Expression.Paths.{
  DocumentPathItem, member, member_asterisk, array_index, array_index_asterisk, double_asterisk,
  ends_in_double,
}
use pecl_database_mysql_xdev.Expression.Columns.{ColumnIdentifier}

-- A token without its position.
abbrev pub Kind : Type 0
Kind = TokenType × Bytes

abbrev pub mark : Kind → ℕ → Token
mark k p = record { type = k.0; text = k.1; pos = p }

-- The tokens of these kinds; the position of token `i` is `at i`.
abbrev pub place : (ℕ → ℕ) → List Kind → List Token
place at [] = []
place at (k ∷ ks) = mark k (at 0) ∷ place (λ i. at (suc i)) ks

-- The cursor between the tokens `ks`, which follow `before`, and the tokens `rest`.
abbrev pub walk : List Kind → (ℕ → ℕ) → List Token → List Kind → Cursor
walk [] at before rest = cursor before (place at rest)
walk (k ∷ ks) at before rest = walk ks (λ i. at (suc i)) (mark k (at 0) ∷ before) rest

pub length-place : (at : ℕ → ℕ) (ks : List Kind) → length (place at ks) ≡ length ks
length-place at [] = refl
length-place at (k ∷ ks) = omega (arith, length-place (λ i. at (suc i)) ks)

-- A kind with which no item of a path begins.
abbrev pub IsClosing : List Kind → Type 0
IsClosing [] = Unit
IsClosing (k ∷ ks) =
    ((value k.0 == value dot) ≡ false)
    × ((value k.0 == value lsqbracket) ≡ false)
    × ((value k.0 == value doublestar) ≡ false)

abbrev pub IsItem : DocumentPathItem → Type 0
IsItem (array_index n) = n < 2 ^ 31
IsItem array_index_asterisk = ⊥
IsItem x = Unit

abbrev pub IsPath : List DocumentPathItem → Type 0
IsPath [] = Unit
IsPath (x ∷ xs) = IsItem x × IsPath xs

-- A name of one, two or three parts: a schema stands before a table only, and the first part is not the word `*`.
abbrev pub IsName : Option Bytes → Option Bytes → Bytes → Type 0
IsName none none name = same_text name (codes "*") ≡ false
IsName none (some table) name = same_text table (codes "*") ≡ false
IsName (some schema) (some table) name = same_text schema (codes "*") ≡ false
IsName (some schema) none name = ⊥

abbrev pub IsColumn : ColumnIdentifier → Type 0
IsColumn c =
    IsName c.schema_name c.table_name c.name
    × IsPath c.document_path
    × (ends_in_double c.document_path ≡ false)

module _ (print : ℕ → Bytes) (is_word : Bytes → Bool) where
  -- A member stands as a word or as a string; `[*]` has no spelling that the parser reads.
  abbrev pub spell_item : DocumentPathItem → List Kind
  spell_item (member name) = (dot, codes ".") ∷ (if is_word name then ident else lstring, name) ∷ []
  spell_item (member_asterisk text) = (dot, codes ".") ∷ (mul, text) ∷ []
  spell_item (array_index n) =
      (lsqbracket, codes "[") ∷ (linteger, print n) ∷ (rsqbracket, codes "]") ∷ []
  spell_item array_index_asterisk =
      (lsqbracket, codes "[") ∷ (mul, codes "*") ∷ (rsqbracket, codes "]") ∷ []
  spell_item double_asterisk = (doublestar, codes "**") ∷ []

  abbrev pub spell_path : List DocumentPathItem → List Kind
  spell_path [] = []
  spell_path (x ∷ xs) = spell_item x ++ spell_path xs

  -- The parts of a name, from the schema to the column.
  abbrev pub spell_name : ColumnIdentifier → List Kind
  spell_name c = elim c.table_name [
    | none ↦ (ident, c.name) ∷ []
    | some table ↦ elim c.schema_name [
      | none ↦ (ident, table) ∷ (dot, codes ".") ∷ (ident, c.name) ∷ []
      | some schema ↦
          (ident, schema)
          ∷ (dot, codes ".")
          ∷ (ident, table)
          ∷ (dot, codes ".")
          ∷ (ident, c.name)
          ∷ []
    ]
  ]

  abbrev pub spell_arrow : List DocumentPathItem → List Kind
  spell_arrow path =
      (arrow, codes "->")
      ∷ (quote, codes "'")
      ∷ (dollar, codes "$")
      ∷ (spell_path path ++ (quote, codes "'") ∷ [])

  abbrev pub spell_end : List DocumentPathItem → List Kind
  spell_end [] = []
  spell_end (x ∷ xs) = spell_arrow (x ∷ xs)

  -- `schema.table.column->'$path'`; the path may be left out when it is empty.
  abbrev pub spell_column : ColumnIdentifier → List Kind
  spell_column c = spell_name c ++ spell_end c.document_path

  spell_item_pos : (x : DocumentPathItem) → 0 < length (spell_item x)
  spell_item_pos (member name) = omega arith
  spell_item_pos (member_asterisk text) = omega arith
  spell_item_pos (array_index n) = omega arith
  spell_item_pos array_index_asterisk = omega arith
  spell_item_pos double_asterisk = omega arith

  pub length-spell_path : (xs : List DocumentPathItem) → length xs ≤ length (spell_path xs)
  length-spell_path [] = omega arith
  length-spell_path (x ∷ xs) =
      let a = length-append {0} (spell_item x) (spell_path xs) in
      omega (arith, length-spell_path xs, spell_item_pos x)
