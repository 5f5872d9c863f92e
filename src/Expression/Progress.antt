-- ===== src/Expression/Progress.antt =====
-- The loops of xmysqlnd/crud_parsers/expression_parser.cc end, and what they accept.
use pecl_database_mysql_xdev.Common.{
  ℤ, pos, negsuc, ℕ, zero, suc, ◌≤◌, ◌<◌, ◌≢◌, ap, Bool, true, false, if◌then◌else◌, List, [], ◌∷◌,
  ◌++◌, Option, none, some, Result, ok, err, ◌>>=◌, Bytes, length, arith, Bool-cases, inl, inr,
}
use pecl_database_mysql_xdev.Tokenizer.Tokens.{
  TokenType, Token, dot, ident, lstring, mul, lsqbracket, rsqbracket, linteger, doublestar,
}
use pecl_database_mysql_xdev.Expression.Cursors.{
  Error, expected_member, double_asterisk_at_end, out_of_fuel, Cursor, cursor, left,
  cur_token_type_is, consume_token, peek_token,
}
use pecl_database_mysql_xdev.Expression.Paths.{
  DocumentPathItem, member, member_asterisk, array_index, array_index_asterisk, double_asterisk,
  take_member, fail_at, member_name, docpath_member, index_of, array_index_loc, array_loc,
  docpath_array_loc, path_item, path_items, check_end, ends_in_double, document_path,
}

-- A step from `c` that takes a token or more, or raises an error of the source.
abbrev pub Takes {ℓ} : {A : Type ℓ} → Cursor → Result Error (A × Cursor) → Type 0
Takes c (ok r) = length (left r.1) < length (left c)
Takes c (err e) = e ≢ out_of_fuel

-- The same for a step that may take none.
abbrev pub Keeps {ℓ} : {A : Type ℓ} → Cursor → Result Error (A × Cursor) → Type 0
Keeps c (ok r) = length (left r.1) ≤ length (left c)
Keeps c (err e) = e ≢ out_of_fuel

pub consume_token-Takes : (type : TokenType) (c : Cursor) → Takes c (consume_token type c)
unfolding consume_token
consume_token-Takes type (cursor before []) = λ e. cc
consume_token-Takes type (cursor before (t ∷ ts)) = ground arith

pub fail_at-Keeps {ℓ} :
    (A : Type ℓ) (error : ℕ → Error) (c : Cursor)
    → ((n : ℕ) → error n ≢ out_of_fuel)
    → Keeps {A = A} c (fail_at {A = A × Cursor} error c)
unfolding peek_token
fail_at-Keeps A error (cursor before []) h = λ e. cc
fail_at-Keeps A error (cursor before (t ∷ ts)) h = h t.pos

Keeps-Takes {ℓ} :
    {A : Type ℓ} (c d : Cursor) (r : Result Error (A × Cursor))
    → length (left d) < length (left c)
    → Keeps d r
    → Takes c r
Keeps-Takes c d (ok r) h k = omega arith
Keeps-Takes c d (err e) h k = k

pub Keeps-trans {ℓ} :
    {A : Type ℓ} (c d : Cursor) (r : Result Error (A × Cursor))
    → length (left d) ≤ length (left c)
    → Keeps d r
    → Keeps c r
Keeps-trans c d (ok r) h k = omega arith
Keeps-trans c d (err e) h k = k

pub Takes-Keeps {ℓ} :
    {A : Type ℓ} (c : Cursor) (r : Result Error (A × Cursor)) → Takes c r → Keeps c r
Takes-Keeps c (ok r) h = omega arith
Takes-Keeps c (err e) h = h

-- A step and then one that may take none.
pub then-Takes {ℓ κ} :
    {A : Type ℓ} {B : Type κ} (c : Cursor) (r : Result Error (A × Cursor))
    (f : A × Cursor → Result Error (B × Cursor))
    → Takes c r
    → ((s : A × Cursor) → Keeps s.1 (f s))
    → Takes c (r >>= f)
then-Takes c (ok s) f h k = Keeps-Takes c s.1 (f s) h (k s)
then-Takes c (err e) f h k = h

pub then-Keeps {ℓ κ} :
    {A : Type ℓ} {B : Type κ} (c : Cursor) (r : Result Error (A × Cursor))
    (f : A × Cursor → Result Error (B × Cursor))
    → Keeps c r
    → ((s : A × Cursor) → Keeps s.1 (f s))
    → Keeps c (r >>= f)
then-Keeps c (ok s) f h k = Keeps-trans c s.1 (f s) h (k s)
then-Keeps c (err e) f h k = h

take_member-Takes :
    (make : Bytes → DocumentPathItem) (type : TokenType) (c : Cursor)
    → Takes c (take_member make type c)
take_member-Takes make type c =
    then-Takes c (consume_token type c) _ (consume_token-Takes type c) (λ s. omega arith)

pub if-Takes {ℓ} :
    {A : Type ℓ} (c : Cursor) (b : Bool) (r s : Result Error (A × Cursor))
    → Takes c r
    → Keeps c s
    → Keeps c (if b then r else s)
if-Takes c true r s h k = Takes-Keeps c r h
if-Takes c false r s h k = k

pub if-both {ℓ} :
    {A : Type ℓ} (c : Cursor) (b : Bool) (r s : Result Error (A × Cursor))
    → Takes c r
    → Takes c s
    → Takes c (if b then r else s)
if-both c true r s h k = h
if-both c false r s h k = k

member_name-Keeps : (c : Cursor) → Keeps c (member_name c)
unfolding member_name
member_name-Keeps c =
    if-Takes c (cur_token_type_is c ident) _ _ (take_member-Takes member ident c) (
      if-Takes c (cur_token_type_is c lstring) _ _ (take_member-Takes member lstring c) (
        if-Takes c (cur_token_type_is c mul) _ _ (take_member-Takes member_asterisk mul c)
          (fail_at-Keeps DocumentPathItem expected_member c (λ n e. cc))))

docpath_member-Takes : (c : Cursor) → Takes c (docpath_member c)
unfolding docpath_member
docpath_member-Takes c =
    then-Takes c (consume_token dot c) _ (consume_token-Takes dot c) (λ r. member_name-Keeps r.1)

module _ (lexical_cast : Bytes → Option ℤ) where
  index_of-error : (at : ℕ) (o : Option ℤ) → index_of at o ≢ err out_of_fuel
  index_of-error at none = λ e. cc
  index_of-error at (some (pos n)) = λ e. cc
  index_of-error at (some (negsuc n)) = λ e. cc

  after_index-Keeps :
      (c : Cursor) (v : Result Error ℕ)
      → v ≢ err out_of_fuel
      → Keeps c (do n ← v; close ← consume_token rsqbracket c; ok (array_index n, close.1))
  after_index-Keeps c (err e) h = λ x. h (ap err x)
  after_index-Keeps c (ok n) h = Takes-Keeps c _ (
      then-Takes c (consume_token rsqbracket c) (λ close. ok (array_index n, close.1))
        (consume_token-Takes rsqbracket c) (λ s. omega arith))

  array_index_loc-Takes : (at : ℕ) (c : Cursor) → Takes c (array_index_loc lexical_cast at c)
  unfolding array_index_loc
  array_index_loc-Takes at c =
      then-Takes c (consume_token linteger c) _ (consume_token-Takes linteger c) (λ text.
        after_index-Keeps text.1 (index_of at (lexical_cast text.0))
          (index_of-error at (lexical_cast text.0)))

  array_loc-Keeps : (at : ℕ) (c : Cursor) → Keeps c (array_loc lexical_cast at c)
  unfolding array_loc
  array_loc-Keeps at c =
      if-Takes c (cur_token_type_is c mul) _ _
        (take_member-Takes (λ text. array_index_asterisk) rsqbracket c)
        (if-Takes c (cur_token_type_is c linteger) _ _ (array_index_loc-Takes at c) (λ e. cc))

  -- `peek_token` moves nothing.
  peek-Keeps {ℓ} :
      {A : Type ℓ} (c : Cursor) (f : Token → Result Error (A × Cursor))
      → ((t : Token) → Keeps c (f t))
      → Keeps c (peek_token c >>= f)
  unfolding peek_token
  peek-Keeps (cursor before []) f h = λ e. cc
  peek-Keeps (cursor before (t ∷ ts)) f h = h t

  docpath_array_loc-Takes : (c : Cursor) → Takes c (docpath_array_loc lexical_cast c)
  unfolding docpath_array_loc
  docpath_array_loc-Takes c =
      then-Takes c (consume_token lsqbracket c) _ (consume_token-Takes lsqbracket c)
        (λ r. peek-Keeps r.1 _ (λ tok. array_loc-Keeps tok.pos r.1))

  abbrev TakesIf : Cursor → Option (Result Error (DocumentPathItem × Cursor)) → Type 0
  TakesIf c none = Unit
  TakesIf c (some r) = Takes c r

  if-TakesIf :
      (c : Cursor) (b : Bool) (r : Result Error (DocumentPathItem × Cursor))
      (o : Option (Result Error (DocumentPathItem × Cursor)))
      → Takes c r
      → TakesIf c o
      → TakesIf c (if b then some r else o)
  if-TakesIf c true r o h k = h
  if-TakesIf c false r o h k = k

  path_item-Takes : (c : Cursor) → TakesIf c (path_item lexical_cast c)
  unfolding path_item
  path_item-Takes c = if-TakesIf c (cur_token_type_is c dot) _ _ (docpath_member-Takes c) (
      if-TakesIf c (cur_token_type_is c lsqbracket) _ _ (docpath_array_loc-Takes c) (
        if-TakesIf c (cur_token_type_is c doublestar) _ _
          (take_member-Takes (λ text. double_asterisk) doublestar c) tt))

  path_step-Keeps :
      (fuel : ℕ) (items : List DocumentPathItem) (c : Cursor)
      → length (left c) < suc fuel
      → ((more : List DocumentPathItem) (d : Cursor)
          → length (left d) < fuel
          → Keeps d (path_items lexical_cast fuel more d))
      → (o : Option (Result Error (DocumentPathItem × Cursor))) → TakesIf c o
      → Keeps c (elim o [
        | none ↦ ok (items, c)
        | some (ok r) ↦ path_items lexical_cast fuel (items ++ r.0 ∷ []) r.1
        | some (err e) ↦ err e
      ])
  path_step-Keeps fuel items c h more none t = omega arith
  path_step-Keeps fuel items c h more (some (ok r)) t =
      Takes-Keeps c _ (Keeps-Takes c r.1 _ t (more (items ++ r.0 ∷ []) r.1 (omega arith)))
  path_step-Keeps fuel items c h more (some (err e)) t = t

  path_items-Keeps :
      (fuel : ℕ) (items : List DocumentPathItem) (c : Cursor)
      → length (left c) < fuel
      → Keeps c (path_items lexical_cast fuel items c)
  unfolding path_items
  path_items-Keeps zero items c h = absurd (omega arith)
  path_items-Keeps (suc fuel) items c h =
      path_step-Keeps fuel items c h (path_items-Keeps fuel) (path_item lexical_cast c)
        (path_item-Takes c)

  check_end-Keeps : (r : List DocumentPathItem × Cursor) → Keeps r.1 (check_end r)
  check_end-Keeps r = elim (Bool-cases (ends_in_double r.0)) [
    | inl e ↦ rw e (fail_at-Keeps (List DocumentPathItem) double_asterisk_at_end r.1 (λ n x. cc))
    | inr e ↦ rw e (omega arith)
  ]

  pub document_path-Keeps : (c : Cursor) → Keeps c (document_path lexical_cast c)
  unfolding document_path
  document_path-Keeps c =
      then-Keeps c (path_items lexical_cast (suc (length (left c))) [] c) check_end
        (path_items-Keeps (suc (length (left c))) [] c (omega arith)) check_end-Keeps
