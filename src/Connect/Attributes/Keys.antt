-- ===== src/Connect/Attributes/Keys.antt =====
-- Keys of attributes in a list (the find_if of parse_conn_attrib, xmysqlnd/xmysqlnd_session.cc).
use pecl_database_mysql_xdev.Common.{
  ◌≡◌, refl, Bool, true, false, not, ◌&&◌, ◌||◌, List, [], ◌∷◌, ◌++◌, Bytes, same_text, arith,
}
use pecl_database_mysql_xdev.Connect.Attributes.{Attribute, has_key}

pub has_key-append :
    (key : Bytes) (c : List Attribute) (a : Attribute)
    → has_key key (c ++ a ∷ []) ≡ has_key key c || same_text a.0 key
unfolding has_key
has_key-append key [] a = ground arith
has_key-append key (b ∷ c) a = let ih = has_key-append key c a in ground arith

pub same_text-sym : (s t : Bytes) → same_text s t ≡ same_text t s
unfolding same_text
same_text-sym [] [] = refl
same_text-sym [] (d ∷ t) = refl
same_text-sym (c ∷ s) [] = refl
same_text-sym (c ∷ s) (d ∷ t) = let ih = same_text-sym s t in ground arith

-- Whether no two attributes have the same key.
abbrev pub is_distinct : List Attribute → Bool
is_distinct [] = true
is_distinct (a ∷ c) = not (has_key a.0 c) && is_distinct c

has_key-both :
    (key : Bytes) (c d : List Attribute) → has_key key (c ++ d) ≡ has_key key c || has_key key d
unfolding has_key
has_key-both key [] d = refl
has_key-both key (a ∷ c) d = let ih = has_key-both key c d in ground arith

-- A key that stands in `c` already.
pub is_distinct-twice :
    (c d : List Attribute) (a : Attribute) → has_key a.0 c ≡ true → is_distinct (c ++ a ∷ d) ≡ false
unfolding has_key
is_distinct-twice [] d a h = ground arith
is_distinct-twice (b ∷ c) d a h =
    let both = has_key-both b.0 c (a ∷ d) in
    let turned = same_text-sym b.0 a.0 in let ih = is_distinct-twice c d a in ground arith
