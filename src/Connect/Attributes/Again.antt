-- ===== src/Connect/Attributes/Again.antt =====
-- A second parse of the same attributes over those that the first has left
-- (connect_session of xmysqlnd/xmysqlnd_session.cc, which tries one address after the other).
use pecl_database_mysql_xdev.Common.{
  ℕ, ◌≡◌, refl, sym, subst, ap, ◌∙◌, Bool, Bool-cases, true, false, ◌&&◌, inl, inr, List, [], ◌∷◌,
  ◌++◌, Option, none, some, Result, ok, err, ◌>>=◌, Status, pass, fail, Bytes, codes, same_text,
  same_text_iff, iequals, arith, ◌≢◌,
}
use pecl_database_mysql_xdev.Connect.Options.Values.{single_separator_split, is_empty}
use pecl_database_mysql_xdev.Connect.Attributes.{
  Attribute, Thrown, parse_attribute, has_key, push, add_attribute, add_attributes, Client,
  def_client_attribs, finish, parse_conn_attrib, conn_attrib_dup_key,
}

true≢false : true ≢ false
true≢false e = cc

err_some : {e : Thrown} → {c : Option (List Attribute)} → err e ≢ ok c
err_some h = cc

has_key-left :
    (key : Bytes) (c d : List Attribute) → has_key key c ≡ true → has_key key (c ++ d) ≡ true
unfolding has_key
has_key-left key [] d h = absurd (true≢false (sym h))
has_key-left key (a ∷ c) d h = elim (Bool-cases (same_text a.0 key)) [
  | inl here ↦ rw here refl
  | inr other ↦ let ih = has_key-left key c d (ground arith) in rw (other, ih) refl
]

-- What a step keeps: every key that was there.
abbrev Kept : Bytes → Result Thrown (Option (List Attribute)) → Type 0
Kept key (err e) = Unit
Kept key (ok none) = Unit
Kept key (ok (some c)) = has_key key c ≡ true

push-Kept :
    (key : Bytes) (a : Attribute) (c : List Attribute) → has_key key c ≡ true → Kept key (push a c)
push-Kept key a c h = elim (Bool-cases (has_key a.0 c)) [
  | inl twice ↦ rw twice tt
  | inr new ↦ elim (Bool-cases (is_empty a.0)) [
    | inl empty ↦ rw (new, empty) tt
    | inr present ↦ rw (new, present) (has_key-left key c (a ∷ []) h)
  ]
]

add_attribute-Kept :
    (key text : Bytes) (c : List Attribute) → has_key key c ≡ true → Kept key (add_attribute text c)
add_attribute-Kept key [] c h = h
add_attribute-Kept key (b ∷ text) c h = push-Kept key (parse_attribute (b ∷ text)) c h

abbrev pub continued :
    List Bytes → Result Thrown (Option (List Attribute)) → Result Thrown (Option (List Attribute))
continued texts (err e) = err e
continued texts (ok none) = ok none
continued texts (ok (some c)) = add_attributes texts c

pub add_attributes-continued :
    (text : Bytes) (texts : List Bytes) (c : List Attribute)
    → add_attributes (text ∷ texts) c ≡ continued texts (add_attribute text c)
unfolding add_attributes
add_attributes-continued text texts c = go (add_attribute text c)
  where
    go :
        (r : Result Thrown (Option (List Attribute)))
        → (elim r as (λ x. Result Thrown (Option (List Attribute))) [
          | err e ↦ err e
          | ok o ↦ elim o as (λ x. Result Thrown (Option (List Attribute))) [
            | none ↦ ok none
            | some d ↦ add_attributes texts d
          ]
        ])
          ≡ continued texts r
    go (err e) = refl
    go (ok none) = refl
    go (ok (some d)) = refl

continued-Kept :
    (key : Bytes) (texts : List Bytes) (r : Result Thrown (Option (List Attribute)))
    → Kept key r
    → ((c : List Attribute) → has_key key c ≡ true → Kept key (add_attributes texts c))
    → Kept key (continued texts r)
continued-Kept key texts (err e) k go = tt
continued-Kept key texts (ok none) k go = tt
continued-Kept key texts (ok (some d)) k go = go d k

add_attributes-Kept :
    (key : Bytes) (texts : List Bytes) (c : List Attribute)
    → has_key key c ≡ true
    → Kept key (add_attributes texts c)
unfolding add_attributes
add_attributes-Kept key [] c h = h
add_attributes-Kept key (text ∷ texts) c h =
    subst (λ (r : Result Thrown (Option (List Attribute))). Kept key r)
      (sym (add_attributes-continued text texts c))
      (continued-Kept key texts (add_attribute text c) (add_attribute-Kept key text c h)
        (λ d k. add_attributes-Kept key texts d k))

abbrev pub is_blank : List Bytes → Bool
is_blank [] = true
is_blank (text ∷ texts) = is_empty text && is_blank texts

-- What a second run over `d` and more does when the first one has left `d`.
abbrev Again : List Bytes → List Attribute → Result Thrown (Option (List Attribute)) → Type 0
Again texts more (err e) = Unit
Again texts more (ok none) = Unit
Again texts more (ok (some d)) = add_attributes texts (d ++ more) ≡ err conn_attrib_dup_key

skip-Again :
    (texts : List Bytes) (more : List Attribute) (r : Result Thrown (Option (List Attribute)))
    → Again texts more r
    → Again ([] ∷ texts) more r
unfolding add_attributes
skip-Again texts more (err e) h = tt
skip-Again texts more (ok none) h = tt
skip-Again texts more (ok (some d)) h = h

Kept-Again :
    (b : ℕ) (text : Bytes) (texts : List Bytes) (more : List Attribute)
    (r : Result Thrown (Option (List Attribute)))
    → Kept (parse_attribute (b ∷ text)).0 r
    → Again ((b ∷ text) ∷ texts) more r
Kept-Again b text texts more (err e) h = tt
Kept-Again b text texts more (ok none) h = tt
Kept-Again b text texts more (ok (some d)) h =
    add_attributes-continued (b ∷ text) texts (d ++ more) ∙ rw (has_key-left _ d more h) refl

add_attributes-Again :
    (texts : List Bytes) (more : List Attribute)
    → is_blank texts ≡ false
    → Again texts more (add_attributes texts [])
unfolding add_attributes
add_attributes-Again [] more h = absurd (true≢false h)
add_attributes-Again ([] ∷ texts) more h =
    skip-Again texts more (add_attributes texts []) (add_attributes-Again texts more h)
add_attributes-Again ((b ∷ text) ∷ texts) more h =
    let a = parse_attribute (b ∷ text) in
    let same = (same_text_iff a.0 a.0).1 refl in
    let held : has_key a.0 (a ∷ []) ≡ true = rw same refl in
    let first = add_attributes-continued (b ∷ text) texts [] in
    elim (Bool-cases (is_empty a.0)) [
      | inl empty ↦
          let pushed : push a [] ≡ ok none = rw empty refl in
          subst (λ (r : Result Thrown (Option (List Attribute))). Again ((b ∷ text) ∷ texts) more r)
            (sym (
              first
              ∙ ap (λ (r : Result Thrown (Option (List Attribute))). continued texts r) pushed))
            tt
      | inr present ↦
          let pushed : push a [] ≡ ok (some (a ∷ [])) = rw present refl in
          subst (λ (r : Result Thrown (Option (List Attribute))). Again ((b ∷ text) ∷ texts) more r)
            (sym (
              first
              ∙ ap (λ (r : Result Thrown (Option (List Attribute))). continued texts r) pushed))
            (Kept-Again b text texts more (add_attributes texts (a ∷ []))
              (add_attributes-Kept a.0 texts (a ∷ []) held))
    ]

abbrev left_attributes : Result Thrown (Status × List Attribute) → List Attribute
left_attributes (err e) = []
left_attributes (ok (pass, c)) = c
left_attributes (ok (fail, c)) = c

abbrev has_passed : Result Thrown (Status × List Attribute) → Bool
has_passed (err e) = false
has_passed (ok (pass, c)) = true
has_passed (ok (fail, c)) = false

-- The end of both runs.
finish-Again :
    (client : Client) (texts : List Bytes) (c : List Attribute)
    (r : Result Thrown (Option (List Attribute)))
    → Again texts (def_client_attribs client) r
    → r >>= (λ o. ok (finish client o)) ≡ ok (pass, c)
    → add_attributes texts c ≡ err conn_attrib_dup_key
finish-Again client texts c (err e) h k =
    absurd (true≢false (sym (ap (λ (r : Result Thrown (Status × List Attribute)). has_passed r) k)))
finish-Again client texts c (ok none) h k =
    absurd (true≢false (sym (ap (λ (r : Result Thrown (Status × List Attribute)). has_passed r) k)))
finish-Again client texts c (ok (some d)) h k =
    subst (λ (l : List Attribute). add_attributes texts l ≡ err conn_attrib_dup_key)
      (ap (λ (r : Result Thrown (Status × List Attribute)). left_attributes r) k) h

parse_list :
    (client : Client) (b : ℕ) (text : Bytes) (c : List Attribute)
    → iequals (b ∷ text) (codes "false") ≡ false
    → iequals (b ∷ text) (codes "true") ≡ false
    → parse_conn_attrib client c (b ∷ text) true
      ≡ add_attributes (single_separator_split b',' (b ∷ text)) c >>= (λ o. ok (finish client o))
unfolding parse_conn_attrib
parse_list client b text c f t = rw (f, t) refl

-- A list with an attribute in it that has been accepted once is not accepted again over what the
-- first call has left: the second call throws conn_attrib_dup_key.
pub parse_conn_attrib-again :
    (client : Client) (user_attribs : Bytes) (c : List Attribute)
    → is_blank (single_separator_split b',' user_attribs) ≡ false
    → iequals user_attribs (codes "false") ≡ false
    → iequals user_attribs (codes "true") ≡ false
    → parse_conn_attrib client [] user_attribs true ≡ ok (pass, c)
    → parse_conn_attrib client c user_attribs true ≡ err conn_attrib_dup_key
unfolding parse_conn_attrib
parse_conn_attrib-again client [] c some_text f t h = absurd (true≢false some_text)
parse_conn_attrib-again client (b ∷ text) c some_text f t h =
    let texts = single_separator_split b',' (b ∷ text) in
    let twice =
      finish-Again client texts c (add_attributes texts [])
        (add_attributes-Again texts (def_client_attribs client) some_text)
        (sym (parse_list client b text [] f t) ∙ h) in
    parse_list client b text c f t ∙ rw twice refl
