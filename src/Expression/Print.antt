-- ===== src/Expression/Print.antt =====
-- Document paths spelled as tokens, read back by xmysqlnd/crud_parsers/expression_parser.cc.
use pecl_database_mysql_xdev.Common.{
  ℤ, pos, ℕ, zero, suc, ◌^◌, ◌<◌, ◌≡◌, refl, ap, Bool, false, List, [], ◌∷◌, ◌++◌, append_assoc,
  append-nil, Option, none, some, Result, ok, err, Bytes, codes, length, length-append, arith, ◌∙◌,
  Bool-cases, inl, inr,
}
use pecl_database_mysql_xdev.Tokenizer.Tokens.{Token, value, lsqbracket, rsqbracket, linteger}
use pecl_database_mysql_xdev.Expression.Cursors.{
  Error, expected, Cursor, cursor, consume_token, peek_token, cur_token_type_is,
}
use pecl_database_mysql_xdev.Expression.Paths.{
  DocumentPathItem, member, member_asterisk, array_index, array_index_asterisk, double_asterisk,
  path_items, path_item, member_name, docpath_member, array_index_loc, array_loc, docpath_array_loc,
  document_path, ends_in_double,
}
use pecl_database_mysql_xdev.Expression.Spelling.{
  Kind, mark, place, walk, length-place, IsClosing, IsPath, spell_item, spell_path,
  length-spell_path,
}

module _ (lexical_cast : Bytes → Option ℤ) (print : ℕ → Bytes)
    (cast-print : (n : ℕ) → n < 2 ^ 31 → lexical_cast (print n) ≡ some (pos n))
    (is_word : Bytes → Bool) where
  path_item-closing :
      (at : ℕ → ℕ) (before : List Token) (rest : List Kind)
      → IsClosing rest
      → path_item lexical_cast (cursor before (place at rest)) ≡ none
  unfolding path_item cur_token_type_is
  path_item-closing at before [] c = refl
  path_item-closing at before (k ∷ rest) (d, l, s) = rw (d, l, s) refl

  path_item-index :
      (n : ℕ) (at : ℕ → ℕ) (before : List Token) (rest : List Kind)
      → n < 2 ^ 31
      → path_item lexical_cast
          (cursor before (place at (spell_item print is_word (array_index n) ++ rest)))
        ≡ some (ok (array_index n, walk (spell_item print is_word (array_index n)) at before rest))
  unfolding path_item member_name docpath_member array_index_loc array_loc docpath_array_loc
      consume_token peek_token cur_token_type_is value
  path_item-index n at before rest h = rw (cast-print n h) refl

  path_items-step :
      (fuel : ℕ) (items : List DocumentPathItem) (x : DocumentPathItem) (c d : Cursor)
      → path_item lexical_cast c ≡ some (ok (x, d))
      → path_items lexical_cast (suc fuel) items c
        ≡ path_items lexical_cast fuel (items ++ x ∷ []) d
  unfolding path_items
  path_items-step fuel items x c d h =
      ap
        (λ (o : Option (Result Error (DocumentPathItem × Cursor))). elim o [
          | none ↦ ok (items, c)
          | some (ok r) ↦ path_items lexical_cast fuel (items ++ r.0 ∷ []) r.1
          | some (err e) ↦ err e
        ])
        h

  path_items-stop :
      (fuel : ℕ) (items : List DocumentPathItem) (c : Cursor)
      → path_item lexical_cast c ≡ none
      → path_items lexical_cast (suc fuel) items c ≡ ok (items, c)
  unfolding path_items
  path_items-stop fuel items c h =
      ap
        (λ (o : Option (Result Error (DocumentPathItem × Cursor))). elim o [
          | none ↦ ok (items, c)
          | some (ok r) ↦ path_items lexical_cast fuel (items ++ r.0 ∷ []) r.1
          | some (err e) ↦ err e
        ])
        h

  add_item :
      (items : List DocumentPathItem) (x : DocumentPathItem) (xs : List DocumentPathItem)
      (c : Cursor) (r : Result Error (List DocumentPathItem × Cursor))
      → r ≡ ok ((items ++ x ∷ []) ++ xs, c)
      → r ≡ ok (items ++ x ∷ xs, c)
  add_item items x xs c r h =
      h ∙ ap (λ (ys : List DocumentPathItem). ok (ys, c)) (append_assoc items (x ∷ []) xs)

  path_items-spell :
      (fuel : ℕ) (items xs : List DocumentPathItem) (at : ℕ → ℕ) (before : List Token)
      (rest : List Kind)
      → length xs < fuel
      → IsPath xs
      → IsClosing rest
      → path_items lexical_cast fuel items
          (cursor before (place at (spell_path print is_word xs ++ rest)))
        ≡ ok (items ++ xs, walk (spell_path print is_word xs) at before rest)
  unfolding path_items path_item member_name docpath_member array_index_loc array_loc
      docpath_array_loc consume_token peek_token cur_token_type_is value
  path_items-spell zero items xs at before rest h p c = absurd (omega arith)
  path_items-spell (suc fuel) items [] at before rest h p c =
      rw (append-nil items) (path_items-stop fuel items _ (path_item-closing at before rest c))
  path_items-spell (suc fuel) items (member name ∷ xs) at before rest h (u, p) c =
      elim (Bool-cases (is_word name)) [
        | inl e ↦ rw e (
            add_item items (member name) xs _ _
              (path_items-spell fuel (items ++ member name ∷ []) xs _ _ rest (omega arith) p c))
        | inr e ↦ rw e (
            add_item items (member name) xs _ _
              (path_items-spell fuel (items ++ member name ∷ []) xs _ _ rest (omega arith) p c))
      ]
  path_items-spell (suc fuel) items (member_asterisk text ∷ xs) at before rest h (u, p) c =
      add_item items (member_asterisk text) xs _ _
        (path_items-spell fuel (items ++ member_asterisk text ∷ []) xs _ _ rest (omega arith) p c)
  path_items-spell (suc fuel) items (array_index n ∷ xs) at before rest h (u, p) c =
      path_items-step fuel items (array_index n)
        (cursor before (
          place at
            (spell_item print is_word (array_index n) ++ (spell_path print is_word xs ++ rest))))
        _ (path_item-index n at before (spell_path print is_word xs ++ rest) u)
      ∙ add_item items (array_index n) xs _ _
          (path_items-spell fuel (items ++ array_index n ∷ []) xs _ _ rest (omega arith) p c)
  path_items-spell (suc fuel) items (array_index_asterisk ∷ xs) at before rest h (u, p) c = absurd u
  path_items-spell (suc fuel) items (double_asterisk ∷ xs) at before rest h (u, p) c =
      add_item items double_asterisk xs _ _
        (path_items-spell fuel (items ++ double_asterisk ∷ []) xs _ _ rest (omega arith) p c)

  spell_path_fuel :
      (xs : List DocumentPathItem) (at : ℕ → ℕ) (rest : List Kind)
      → length xs < suc (length (place at (spell_path print is_word xs ++ rest)))
  spell_path_fuel xs at rest =
      let a = length-place at (spell_path print is_word xs ++ rest) in
      let b = length-append {0} (spell_path print is_word xs) rest in
      let c = length-spell_path print is_word xs in omega arith

  -- A path that does not end in `**`, spelled as tokens, is read back by `document_path`, which
  -- stops at the first token that begins no item of a path.
  pub document_path-spell :
      (xs : List DocumentPathItem) (at : ℕ → ℕ) (before : List Token) (rest : List Kind)
      → IsPath xs
      → IsClosing rest
      → ends_in_double xs ≡ false
      → document_path lexical_cast (cursor before (place at (spell_path print is_word xs ++ rest)))
        ≡ ok (xs, walk (spell_path print is_word xs) at before rest)
  unfolding document_path
  document_path-spell xs at before rest p c e =
      rw (path_items-spell _ [] xs at before rest (spell_path_fuel xs at rest) p c, e) refl

  -- The item `[*]` behind a path.
  abbrev pub spell_asterisk : List DocumentPathItem → List Kind
  spell_asterisk xs = spell_path print is_word xs ++ spell_item print is_word array_index_asterisk

  path_items-asterisk :
      (fuel : ℕ) (items xs : List DocumentPathItem) (at : ℕ → ℕ) (before : List Token)
      (rest : List Kind)
      → length xs < fuel
      → IsPath xs
      → (p : ℕ) × (path_items lexical_cast fuel items
            (cursor before (place at (spell_asterisk xs ++ rest)))
          ≡ err (expected rsqbracket p))
  unfolding path_items path_item member_name docpath_member array_index_loc array_loc
      docpath_array_loc consume_token peek_token cur_token_type_is value
  path_items-asterisk zero items xs at before rest h p = absurd (omega arith)
  path_items-asterisk (suc fuel) items [] at before rest h p = (at 1, refl)
  path_items-asterisk (suc fuel) items (member name ∷ xs) at before rest h (u, p) =
      elim (Bool-cases (is_word name)) [
        | inl e ↦ rw e (path_items-asterisk fuel _ xs _ _ rest (omega arith) p)
        | inr e ↦ rw e (path_items-asterisk fuel _ xs _ _ rest (omega arith) p)
      ]
  path_items-asterisk (suc fuel) items (member_asterisk text ∷ xs) at before rest h (u, p) =
      path_items-asterisk fuel _ xs _ _ rest (omega arith) p
  path_items-asterisk (suc fuel) items (array_index n ∷ xs) at before rest h (u, p) =
      let r =
        path_items-asterisk fuel (items ++ array_index n ∷ []) xs (λ i. at (suc (suc (suc i))))
          (mark (rsqbracket, codes "]") (at 2)
            ∷ mark (linteger, print n) (at 1)
            ∷ mark (lsqbracket, codes "[") (at 0)
            ∷ before)
          rest (omega arith) p in
      (
        r.0,
        path_items-step fuel items (array_index n)
              (cursor before (
                place at (spell_item print is_word (array_index n) ++ (spell_asterisk xs ++ rest))))
              _ (path_item-index n at before (spell_asterisk xs ++ rest) u)
            ∙ r.1,
      )
  path_items-asterisk (suc fuel) items (array_index_asterisk ∷ xs) at before rest h (u, p) =
      absurd u
  path_items-asterisk (suc fuel) items (double_asterisk ∷ xs) at before rest h (u, p) =
      path_items-asterisk fuel _ xs _ _ rest (omega arith) p

  -- Behind any path, the item `[*]` of the grammar is refused: the parser expects `]` where the
  -- `*` stands.
  pub document_path-asterisk :
      (xs : List DocumentPathItem) (at : ℕ → ℕ) (before : List Token) (rest : List Kind)
      → IsPath xs
      → (p : ℕ) × (document_path lexical_cast (cursor before (place at (spell_asterisk xs ++ rest)))
          ≡ err (expected rsqbracket p))
  unfolding document_path
  document_path-asterisk xs at before rest p =
      let a = length-place at (spell_asterisk xs ++ rest) in
      let b = length-append {0} (spell_asterisk xs) rest in
      let c =
        length-append {0} (spell_path print is_word xs)
          (spell_item print is_word array_index_asterisk) in
      let d = length-spell_path print is_word xs in
      let r =
        path_items-asterisk (suc (length (place at (spell_asterisk xs ++ rest)))) [] xs at before
          rest (omega arith) p in
      (r.0, rw (r.1) refl)
