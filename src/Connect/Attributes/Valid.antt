-- ===== src/Connect/Attributes/Valid.antt =====
-- What the attributes that parse_conn_attrib (xmysqlnd/xmysqlnd_session.cc) has taken obey.
use pecl_database_mysql_xdev.Common.{
  ℕ, ◌≤◌, ◌≡◌, refl, sym, subst, ◌∙◌, ltb, Bool, Bool-cases, true, false, not, ◌&&◌, ◌||◌, inl, inr,
  if◌then◌else◌, List, [], ◌∷◌, ◌++◌, append_assoc, Option, none, some, Result, ok, err, Bytes,
  length, same_text, arith, ◌≢◌,
}
use pecl_database_mysql_xdev.Connect.Options.Values.{single_separator_split, is_empty}
use pecl_database_mysql_xdev.Connect.Attributes.{
  Attribute, Thrown, starts_with, attribute_value, is_value_too_long, attribute_of, parse_attribute,
  has_key, push, add_attribute, add_attributes, Client, def_client_attribs,
}
use pecl_database_mysql_xdev.Connect.Attributes.Keys.{has_key-append, same_text-sym, is_distinct}

true≢false : true ≢ false
true≢false e = cc

-- A key of 1 to 32 bytes that does not begin with an underscore, and a value of at most 1024.
pub record IsAllowed (a : Attribute) : Type 0 where
  pub present : is_empty a.0 ≡ false
  pub key_size : length a.0 ≤ 32
  pub value_size : length a.1 ≤ 1024
  pub own : starts_with b'_' a.0 ≡ false

-- Allowed attributes, each with a key that none before it has.
pub data IsValid : List Attribute → Type 0 where
  nothing : IsValid []
  more :
      {c : List Attribute}
      → {a : Attribute} → IsValid c
      → IsAllowed a
      → has_key a.0 c ≡ false
      → IsValid (c ++ a ∷ [])

attribute_value-size :
    (rest : List Bytes) → is_value_too_long rest ≡ false → length (attribute_value rest) ≤ 1024
attribute_value-size [] e = omega arith
attribute_value-size (value ∷ []) e = ground arith
attribute_value-size (value ∷ next ∷ rest) e = omega arith

abbrev chosen : Bool → Bytes → List Bytes → Attribute
chosen bad key rest = if bad then ([], []) else (key, attribute_value rest)

chosen-IsAllowed :
    (bad : Bool) (key : Bytes) (rest : List Bytes)
    → bad ≡ (ltb 32 (length key) || is_value_too_long rest || starts_with b'_' key)
    → is_empty (chosen bad key rest).0 ≡ false
    → IsAllowed (chosen bad key rest)
chosen-IsAllowed true key rest e h = absurd (true≢false h)
chosen-IsAllowed false key rest e h = record {
  present = h;
  key_size = ground arith;
  value_size = attribute_value-size rest (ground arith);
  own = ground arith;
}

attribute_of-IsAllowed :
    (parts : List Bytes) → is_empty (attribute_of parts).0 ≡ false → IsAllowed (attribute_of parts)
attribute_of-IsAllowed [] e = absurd (true≢false e)
attribute_of-IsAllowed (key ∷ rest) e =
    chosen-IsAllowed (ltb 32 (length key) || is_value_too_long rest || starts_with b'_' key) key
      rest refl e

-- What a step of the loop leaves.
abbrev pub Pushed : Result Thrown (Option (List Attribute)) → Type 0
Pushed (err e) = Unit
Pushed (ok none) = Unit
Pushed (ok (some c)) = IsValid c

push-Pushed :
    (a : Attribute) (c : List Attribute)
    → (is_empty a.0 ≡ false → IsAllowed a)
    → IsValid c
    → Pushed (push a c)
push-Pushed a c allowed v = elim (Bool-cases (has_key a.0 c)) [
  | inl twice ↦ rw twice tt
  | inr new ↦ elim (Bool-cases (is_empty a.0)) [
    | inl empty ↦ rw (new, empty) tt
    | inr present ↦ rw (new, present) (more v (allowed present) new)
  ]
]

add_attribute-Pushed :
    (text : Bytes) (c : List Attribute) → IsValid c → Pushed (add_attribute text c)
unfolding parse_attribute
add_attribute-Pushed [] c v = v
add_attribute-Pushed (b ∷ text) c v =
    push-Pushed (parse_attribute (b ∷ text)) c
      (attribute_of-IsAllowed (single_separator_split b'=' (b ∷ text))) v

continue-Pushed :
    (texts : List Bytes) (r : Result Thrown (Option (List Attribute)))
    → Pushed r
    → ((c : List Attribute) → IsValid c → Pushed (add_attributes texts c))
    → Pushed (elim r as (λ x. Result Thrown (Option (List Attribute))) [
      | err e ↦ err e
      | ok o ↦ elim o as (λ x. Result Thrown (Option (List Attribute))) [
        | none ↦ ok none
        | some c ↦ add_attributes texts c
      ]
    ])
continue-Pushed texts (err e) p go = tt
continue-Pushed texts (ok none) p go = tt
continue-Pushed texts (ok (some c)) p go = go c p

pub add_attributes-Pushed :
    (texts : List Bytes) (c : List Attribute) → IsValid c → Pushed (add_attributes texts c)
unfolding add_attributes
add_attributes-Pushed [] c v = v
add_attributes-Pushed (text ∷ texts) c v =
    continue-Pushed texts (add_attribute text c) (add_attribute-Pushed text c v)
      (λ d w. add_attributes-Pushed texts d w)

same_text-starts :
    (c : ℕ) (s t : Bytes) → starts_with c s ≡ false → starts_with c t ≡ true → same_text s t ≡ false
unfolding same_text
same_text-starts c [] (d ∷ t) g h = refl
same_text-starts c s [] g h = absurd (true≢false (sym h))
same_text-starts c (e ∷ s) (d ∷ t) g h = ground arith

has_key-own :
    (key : Bytes) (c : List Attribute)
    → starts_with b'_' key ≡ true
    → IsValid c
    → has_key key c ≡ false
unfolding has_key
has_key-own key [] h nothing = refl
has_key-own key _ h (more {c} {a} v allowed new) =
    let ih = has_key-own key c h v in
    has_key-append key c a ∙ rw (ih, same_text-starts b'_' a.0 key allowed.own h) refl

-- Whether two lists have no key in common.
abbrev is_apart : List Attribute → List Attribute → Bool
is_apart [] c = true
is_apart (a ∷ d) c = not (has_key a.0 c) && is_apart d c

is_apart-append :
    (d c : List Attribute) (a : Attribute)
    → is_apart d (c ++ a ∷ []) ≡ true
    → (is_apart d c ≡ true) × (has_key a.0 d ≡ false)
unfolding has_key
is_apart-append [] c a h = (refl, refl)
is_apart-append (b ∷ d) c a h =
    let split = has_key-append b.0 c a in
    let turned = same_text-sym a.0 b.0 in
    let ih = is_apart-append d c a (ground arith) in (ground arith, ground arith)

append-distinct :
    (c d : List Attribute)
    → IsValid c
    → is_distinct d ≡ true
    → is_apart d c ≡ true
    → is_distinct (c ++ d) ≡ true
append-distinct [] d nothing h k = h
append-distinct _ d (more {c} {a} v allowed new) h k =
    let both = is_apart-append d c a k in
    let fresh = both.0 in
    let other = both.1 in
    subst (λ (l : List Attribute). is_distinct l ≡ true) (sym (append_assoc c (a ∷ []) d))
      (append-distinct c (a ∷ d) v (ground arith) (ground arith))

-- Whether every key begins as the client's own do.
abbrev is_own : List Attribute → Bool
is_own [] = true
is_own (a ∷ d) = starts_with b'_' a.0 && is_own d

own-is_apart : (d c : List Attribute) → IsValid c → is_own d ≡ true → is_apart d c ≡ true
own-is_apart [] c v h = refl
own-is_apart (a ∷ d) c v h =
    let first = has_key-own a.0 c (ground arith) v in
    let ih = own-is_apart d c v (ground arith) in rw (first, ih) refl

def_client_attribs-own :
    (client : Client) (hostname : Option Bytes)
    → (is_own (def_client_attribs (record client { hostname = hostname })) ≡ true)
      × (is_distinct (def_client_attribs (record client { hostname = hostname })) ≡ true)
unfolding has_key
def_client_attribs-own client none = (refl, refl)
def_client_attribs-own client (some name) = (refl, refl)

pub def_client_attribs-distinct :
    (client : Client) (c : List Attribute)
    → IsValid c
    → is_distinct (c ++ def_client_attribs client) ≡ true
def_client_attribs-distinct client c v =
    let own = def_client_attribs-own client client.hostname in
    append-distinct c (def_client_attribs client) v own.1
      (own-is_apart (def_client_attribs client) c v own.0)
