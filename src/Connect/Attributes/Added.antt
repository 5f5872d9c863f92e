-- ===== src/Connect/Attributes/Added.antt =====
-- The loop of parse_conn_attrib (xmysqlnd/xmysqlnd_session.cc) adds all the attributes that the texts
-- spell, in order, or says which one it does not take.
use pecl_database_mysql_xdev.Common.{
  ℕ, ◌≡◌, ◌≢◌, same_text, refl, sym, ap, ◌∙◌, Bool-cases, true, false, inl, inr, List, [], ◌∷◌,
  ◌++◌, append_assoc, append-nil, Option, none, some, Result, ok, err, Bytes,
}
use pecl_database_mysql_xdev.Connect.Options.Values.{is_empty}
use pecl_database_mysql_xdev.Connect.Attributes.{
  Attribute, Thrown, conn_attrib_dup_key, parse_attribute, has_key, push, add_attribute,
  add_attributes,
}
use pecl_database_mysql_xdev.Connect.Attributes.Keys.{
  has_key-append, is_distinct, is_distinct-twice,
}
use pecl_database_mysql_xdev.Connect.Attributes.Again.{continued, add_attributes-continued}
use pecl_database_mysql_xdev.Connect.Attributes.Given.{
  given, is_refused, some_refused, parse_attribute-given, parse_attribute-refused,
}

true≢false : true ≢ false
true≢false e = cc

-- What the texts leave: the container with their attributes, a refused attribute among them, or
-- the exception for a key that stands there twice.
abbrev pub Adds : List Bytes → List Attribute → Result Thrown (Option (List Attribute)) → Type 0
Adds texts c (ok (some d)) = d ≡ c ++ given texts
Adds texts c (ok none) = some_refused texts ≡ true
Adds texts c (err e) = (e ≡ conn_attrib_dup_key) × (is_distinct (c ++ given texts) ≡ false)

-- An attribute that is taken stands behind the others.
abbrev Takes : Attribute → List Attribute → Result Thrown (Option (List Attribute)) → Type 0
Takes a c (ok (some d)) = (is_empty a.0 ≡ false) × (d ≡ c ++ a ∷ [])
Takes a c (ok none) = is_empty a.0 ≡ true
Takes a c (err e) = (e ≡ conn_attrib_dup_key) × (has_key a.0 c ≡ true)

push-Takes : (a : Attribute) (c : List Attribute) → Takes a c (push a c)
push-Takes a c = elim (Bool-cases (has_key a.0 c)) [
  | inl twice ↦ rw twice (refl, twice)
  | inr new ↦ elim (Bool-cases (is_empty a.0)) [
    | inl empty ↦ rw (new, empty) empty
    | inr present ↦ rw (new, present) (present, refl)
  ]
]

is_empty-nil : (k : Bytes) → is_empty k ≡ true → k ≡ []
is_empty-nil [] e = refl
is_empty-nil (b ∷ k) e = absurd (true≢false (sym e))

no_key_empty : (k : Bytes) → is_empty k ≡ false → same_text k [] ≡ false
unfolding same_text
no_key_empty [] e = absurd (true≢false e)
no_key_empty (b ∷ k) e = refl

module _ (b : ℕ) (text : Bytes) (texts : List Bytes) (c : List Attribute) where
  abbrev first : Attribute
  first = parse_attribute (b ∷ text)

  refused_first : is_empty first.0 ≡ true → some_refused ((b ∷ text) ∷ texts) ≡ true
  refused_first e =
      let refused = parse_attribute-refused b text in
      let h : is_refused (b ∷ text) ≡ true = sym refused ∙ e in rw h refl

  refused_later : some_refused texts ≡ true → some_refused ((b ∷ text) ∷ texts) ≡ true
  refused_later e = elim (Bool-cases (is_refused (b ∷ text))) [
    | inl here ↦ rw here refl
    | inr other ↦ rw other e
  ]

  shifted :
      (d : List Attribute)
      → is_empty first.0 ≡ false
      → d ≡ c ++ first ∷ []
      → d ++ given texts ≡ c ++ given ((b ∷ text) ∷ texts)
  shifted d present e =
      ap (λ (l : List Attribute). l ++ given texts) e
      ∙ append_assoc c (first ∷ []) (given texts)
      ∙ ap (λ (a : Attribute). c ++ a ∷ given texts) (parse_attribute-given b text present)

  twice-Adds :
      has_key [] c ≡ false
      → has_key first.0 c ≡ true
      → is_distinct (c ++ given ((b ∷ text) ∷ texts)) ≡ false
  twice-Adds no_empty twice = elim (Bool-cases (is_empty first.0)) [
    | inl e ↦ absurd (
        true≢false
          (sym twice ∙ (ap (λ (k : Bytes). has_key k c) (is_empty-nil first.0 e) ∙ no_empty)))
    | inr present ↦
        sym (
          ap (λ (a : Attribute). is_distinct (c ++ a ∷ given texts))
            (parse_attribute-given b text present))
        ∙ is_distinct-twice c (given texts) first twice
  ]

  still_no_empty :
      (d : List Attribute)
      → has_key [] c ≡ false
      → is_empty first.0 ≡ false
      → d ≡ c ++ first ∷ []
      → has_key [] d ≡ false
  still_no_empty d no_empty present e =
      ap (λ (l : List Attribute). has_key [] l) e
      ∙ (has_key-append [] c first ∙ rw (no_empty, no_key_empty first.0 present) refl)

  later-Adds :
      (d : List Attribute) (r : Result Thrown (Option (List Attribute)))
      → d ++ given texts ≡ c ++ given ((b ∷ text) ∷ texts)
      → Adds texts d r
      → Adds ((b ∷ text) ∷ texts) c r
  later-Adds d (ok (some f)) e h = h ∙ e
  later-Adds d (ok none) e h = refused_later h
  later-Adds d (err x) e h = (h.0, sym (ap is_distinct e) ∙ h.1)

  continued-Adds :
      (r : Result Thrown (Option (List Attribute)))
      → has_key [] c ≡ false
      → ((d : List Attribute) → has_key [] d ≡ false → Adds texts d (add_attributes texts d))
      → Takes first c r
      → Adds ((b ∷ text) ∷ texts) c (continued texts r)
  continued-Adds (err e) n ih t = (t.0, twice-Adds n t.1)
  continued-Adds (ok none) n ih t = refused_first t
  continued-Adds (ok (some d)) n ih t =
      later-Adds d (add_attributes texts d) (shifted d t.0 t.1) (ih d (still_no_empty d n t.0 t.1))

pub add_attributes-Adds :
    (texts : List Bytes) (c : List Attribute)
    → has_key [] c ≡ false
    → Adds texts c (add_attributes texts c)
unfolding add_attributes
add_attributes-Adds [] c n = sym (append-nil c)
add_attributes-Adds ([] ∷ texts) c n = add_attributes-Adds texts c n
add_attributes-Adds ((b ∷ text) ∷ texts) c n = rw (add_attributes-continued (b ∷ text) texts c) (
    continued-Adds b text texts c (add_attribute (b ∷ text) c) n (add_attributes-Adds texts)
      (push-Takes (parse_attribute (b ∷ text)) c))
