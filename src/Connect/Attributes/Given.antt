-- ===== src/Connect/Attributes/Given.antt =====
-- The attributes that a text spells (parse_attribute of xmysqlnd/xmysqlnd_session.cc).
use pecl_database_mysql_xdev.Common.{
  ℕ, ◌≡◌, ◌≢◌, refl, sym, ap, ◌∙◌, ltb, Bool, Bool-cases, true, false, ◌||◌, inl, inr, ◌==◌,
  if◌then◌else◌, List, [], ◌∷◌, ◌++◌, append_assoc, append-nil, Bytes, length, arith,
}
use pecl_database_mysql_xdev.Connect.Options.Values.{split_from, single_separator_split, is_empty}
use pecl_database_mysql_xdev.Connect.Attributes.{
  Attribute, starts_with, attribute_value, is_value_too_long, attribute_of, parse_attribute,
}

true≢false : true ≢ false
true≢false e = cc

abbrev holds : ℕ → Bytes → Bool
holds sep [] = false
holds sep (c ∷ cs) = (c == sep) || holds sep cs

-- The bytes before the first equals sign.
abbrev pub key_part : Bytes → Bytes
key_part [] = []
key_part (c ∷ cs) = if c == b'=' then [] else c ∷ key_part cs

-- The bytes after the first equals sign.
abbrev pub behind : Bytes → Bytes
behind [] = []
behind (c ∷ cs) = if c == b'=' then cs else behind cs

-- An attribute that is not taken: its key is empty, too long or begins with an underscore, or what
-- stands between its first two equals signs is too long.
abbrev pub is_refused : Bytes → Bool
is_refused text =
    is_empty (key_part text)
    || ltb 32 (length (key_part text))
    || ltb 1024 (length (key_part (behind text)))
    || starts_with b'_' (key_part text)

abbrev pub some_refused : List Bytes → Bool
some_refused [] = false
some_refused ([] ∷ texts) = some_refused texts
some_refused ((b ∷ text) ∷ texts) = is_refused (b ∷ text) || some_refused texts

-- The bytes after the first equals sign, if no other follows.
abbrev pub value_part : Bytes → Bytes
value_part [] = []
value_part (c ∷ cs) = if c == b'=' then (if holds b'=' cs then [] else cs) else value_part cs

-- The attributes that the texts spell, but for empty texts.
abbrev pub given : List Bytes → List Attribute
given [] = []
given ([] ∷ texts) = given texts
given ((b ∷ text) ∷ texts) = (key_part (b ∷ text), value_part (b ∷ text)) ∷ given texts

abbrev rest_parts : Bytes → List Bytes
rest_parts [] = []
rest_parts (c ∷ cs) = if c == b'=' then split_from b'=' [] cs else rest_parts cs

split_from-parts :
    (part cs : Bytes) → split_from b'=' part cs ≡ (part ++ key_part cs) ∷ rest_parts cs
unfolding split_from
split_from-parts part [] = ap (λ (p : Bytes). p ∷ []) (sym (append-nil part))
split_from-parts part (c ∷ cs) = elim (Bool-cases (c == b'=')) [
  | inl e ↦ rw e (ap (λ (p : Bytes). p ∷ split_from b'=' [] cs) (sym (append-nil part)))
  | inr e ↦ rw e (
      split_from-parts (part ++ c ∷ []) cs
      ∙ ap (λ (p : Bytes). p ∷ rest_parts cs) (append_assoc part (c ∷ []) (key_part cs)))
]

key_part-whole : (cs : Bytes) → holds b'=' cs ≡ false → key_part cs ≡ cs
key_part-whole [] h = refl
key_part-whole (c ∷ cs) h = elim (Bool-cases (c == b'=')) [
  | inl e ↦ absurd (true≢false (ground (arith, e, h)))
  | inr e ↦ rw e (ap (λ (t : Bytes). c ∷ t) (key_part-whole cs (ground (arith, e, h))))
]

rest_parts-whole : (cs : Bytes) → holds b'=' cs ≡ false → rest_parts cs ≡ []
rest_parts-whole [] h = refl
rest_parts-whole (c ∷ cs) h = elim (Bool-cases (c == b'=')) [
  | inl e ↦ absurd (true≢false (ground (arith, e, h)))
  | inr e ↦ rw e (rest_parts-whole cs (ground (arith, e, h)))
]

attribute_value-more :
    (part cs : Bytes) → holds b'=' cs ≡ true → attribute_value (part ∷ rest_parts cs) ≡ []
attribute_value-more part [] h = absurd (true≢false (sym h))
attribute_value-more part (c ∷ cs) h = elim (Bool-cases (c == b'=')) [
  | inl e ↦ rw (e, split_from-parts [] cs) refl
  | inr e ↦ rw e (attribute_value-more part cs (ground (arith, e, h)))
]

attribute_value-rest : (cs : Bytes) → attribute_value (rest_parts cs) ≡ value_part cs
attribute_value-rest [] = refl
attribute_value-rest (c ∷ cs) = elim (Bool-cases (c == b'=')) [
  | inr e ↦ rw e (attribute_value-rest cs)
  | inl e ↦ elim (Bool-cases (holds b'=' cs)) [
    | inl h ↦ rw (e, h, split_from-parts [] cs) (attribute_value-more (key_part cs) cs h)
    | inr h ↦ rw (e, h, split_from-parts [] cs, rest_parts-whole cs h) (key_part-whole cs h)
  ]
]

not_bad :
    (bad : Bool) (a : Attribute)
    → is_empty (if bad then ([], []) else a).0 ≡ false
    → (if bad then ([], []) else a) ≡ a
not_bad true a h = absurd (true≢false h)
not_bad false a h = refl

attribute_of-taken :
    (key : Bytes) (rest : List Bytes)
    → is_empty (attribute_of (key ∷ rest)).0 ≡ false
    → attribute_of (key ∷ rest) ≡ (key, attribute_value rest)
attribute_of-taken key rest h =
    not_bad (ltb 32 (length key) || is_value_too_long rest || starts_with b'_' key)
      (key, attribute_value rest) h

pub parse_attribute-given :
    (b : ℕ) (text : Bytes)
    → is_empty (parse_attribute (b ∷ text)).0 ≡ false
    → parse_attribute (b ∷ text) ≡ (key_part (b ∷ text), value_part (b ∷ text))
unfolding parse_attribute single_separator_split
parse_attribute-given b text h =
    let parts = split_from-parts [] (b ∷ text) in
    ap attribute_of parts
    ∙ attribute_of-taken (key_part (b ∷ text)) (rest_parts (b ∷ text))
        (sym (ap (λ (l : List Bytes). is_empty (attribute_of l).0) parts) ∙ h)
    ∙ ap (λ (v : Bytes). (key_part (b ∷ text), v)) (attribute_value-rest (b ∷ text))

is_value_too_long-rest :
    (cs : Bytes) → is_value_too_long (rest_parts cs) ≡ ltb 1024 (length (key_part (behind cs)))
is_value_too_long-rest [] = refl
is_value_too_long-rest (c ∷ cs) = elim (Bool-cases (c == b'=')) [
  | inl e ↦ rw (e, split_from-parts [] cs) refl
  | inr e ↦ rw e (is_value_too_long-rest cs)
]

attribute_of-refused :
    (key : Bytes) (rest : List Bytes)
    → is_empty (attribute_of (key ∷ rest)).0
      ≡ is_empty key || ltb 32 (length key) || is_value_too_long rest || starts_with b'_' key
attribute_of-refused key rest = ground arith

pub parse_attribute-refused :
    (b : ℕ) (text : Bytes) → is_empty (parse_attribute (b ∷ text)).0 ≡ is_refused (b ∷ text)
unfolding parse_attribute single_separator_split
parse_attribute-refused b text =
    ap (λ (l : List Bytes). is_empty (attribute_of l).0) (split_from-parts [] (b ∷ text))
    ∙ (attribute_of-refused (key_part (b ∷ text)) (rest_parts (b ∷ text))
        ∙ ap
            (λ (long : Bool).
              is_empty (key_part (b ∷ text))
              || ltb 32 (length (key_part (b ∷ text)))
              || long
              || starts_with b'_' (key_part (b ∷ text)))
            (is_value_too_long-rest (b ∷ text)))
