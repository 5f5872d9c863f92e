-- ===== src/Connect/Attributes.antt =====
-- The attributes of a connection: parse_attribute, parse_conn_attrib and get_def_client_attribs
-- of xmysqlnd/xmysqlnd_session.cc. What is raised for PHP, after which the code goes on with an
-- empty attribute, is not kept: it ends in FAIL, as an empty key does.
pub mod Rules
pub mod Again
pub mod Keys
pub mod Given
pub mod Added
pub mod Valid
pub mod Tests
use pecl_database_mysql_xdev.Common.{
  ℕ, ltb, ◌==◌, Bool, true, false, not, ◌&&◌, ◌||◌, if◌then◌else◌, List, [], ◌∷◌, ◌++◌, Option,
  none, some, Result, ok, err, ◌>>=◌, Status, pass, fail, Bytes, codes, length, same_text, iequals,
}
use pecl_database_mysql_xdev.Connect.Options.Values.{single_separator_split, is_empty}

abbrev pub Attribute : Type 0
Attribute = Bytes × Bytes

-- The exceptions that are thrown.
pub data Thrown : Type 0 where
  conn_attrib_dup_key conn_attrib_wrong_type : Thrown

abbrev pub starts_with : ℕ → Bytes → Bool
starts_with c [] = false
starts_with c (d ∷ ds) = d == c

-- The value that a split into a key and further parts gives: that of exactly two parts.
abbrev pub attribute_value : List Bytes → Bytes
attribute_value (value ∷ []) = value
attribute_value rest = []

abbrev pub is_value_too_long : List Bytes → Bool
is_value_too_long [] = false
is_value_too_long (value ∷ rest) = ltb 1024 (length value)

abbrev pub attribute_of : List Bytes → Attribute
attribute_of [] = ([], [])
attribute_of (key ∷ rest) =
    if ltb 32 (length key) || is_value_too_long rest || starts_with b'_' key
    then ([], [])
    else (key, attribute_value rest)

unfoldable pub parse_attribute : Bytes → Attribute
unfolding single_separator_split
parse_attribute attribute = attribute_of (single_separator_split b'=' attribute)

-- Whether `std::find_if` finds the key.
unfoldable pub has_key : Bytes → List Attribute → Bool
unfolding same_text
has_key key [] = false
has_key key (a ∷ attributes) = same_text a.0 key || has_key key attributes

-- `none` where the loop is left with FAIL.
abbrev pub push : Attribute → List Attribute → Result Thrown (Option (List Attribute))
push a container =
    if has_key a.0 container
    then err conn_attrib_dup_key
    else if not (is_empty a.0)
    then ok (some (container ++ a ∷ []))
    else ok none

abbrev pub add_attribute : Bytes → List Attribute → Result Thrown (Option (List Attribute))
add_attribute text container =
    if is_empty text then ok (some container) else push (parse_attribute text) container

-- The loop over the attributes.
unfoldable pub add_attributes :
    List Bytes → List Attribute → Result Thrown (Option (List Attribute))
unfolding parse_attribute has_key
add_attributes [] container = ok (some container)
add_attributes (text ∷ texts) container = elim (add_attribute text container) [
  | err e ↦ err e
  | ok r ↦ elim r [ none ↦ ok none | some more ↦ add_attributes texts more ]
]

-- What the process knows of itself: getpid, get_os_name, get_platform and gethostname, which may
-- fail.
pub record Client : Type 0 where
  pub pid : Bytes
  pub os : Bytes
  pub platform : Bytes
  pub hostname : Option Bytes

abbrev pub source_host : Option Bytes → List Attribute
source_host none = []
source_host (some name) = (codes "_source_host", name) ∷ []

-- `get_def_client_attribs`: what it adds.
abbrev pub def_client_attribs : Client → List Attribute
def_client_attribs client =
    (codes "_client_name", codes "mysql-connector-php")
    ∷ (codes "_pid", client.pid)
    ∷ (codes "_os", client.os)
    ∷ (codes "_client_version", codes "8.0.30")
    ∷ (codes "_client_license", codes "PHP License, version 3.01")
    ∷ (codes "_platform", client.platform)
    ∷ source_host client.hostname

-- The end: a failed loop clears the attributes.
abbrev pub finish : Client → Option (List Attribute) → Status × List Attribute
finish client none = (fail, [])
finish client (some container) = (pass, container ++ def_client_attribs client)

unfoldable pub parse_conn_attrib :
    Client → List Attribute → Bytes → Bool → Result Thrown (Status × List Attribute)
unfolding add_attributes single_separator_split iequals
parse_conn_attrib client container user_attribs is_a_list =
    if iequals user_attribs (codes "false")
    then ok (pass, container)
    else if not (iequals user_attribs (codes "true")) && not (is_empty user_attribs)
    then (if is_a_list
        then add_attributes (single_separator_split b',' user_attribs) container
          >>= (λ r. ok (finish client r))
        else err conn_attrib_wrong_type)
    else ok (pass, container ++ def_client_attribs client)
