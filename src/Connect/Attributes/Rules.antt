-- ===== src/Connect/Attributes/Rules.antt =====
-- What the attributes of a connection obey, whatever the user writes (parse_conn_attrib of
-- xmysqlnd/xmysqlnd_session.cc).
use pecl_database_mysql_xdev.Common.{
  ◌≡◌, Bool, true, false, if◌then◌else◌, List, [], ◌++◌, Result, ok, err, Status, pass, fail, Bytes,
  codes, iequals,
}
use pecl_database_mysql_xdev.Connect.Options.Values.{single_separator_split}
use pecl_database_mysql_xdev.Connect.Attributes.{
  Attribute, Thrown, Client, def_client_attribs, conn_attrib_wrong_type, conn_attrib_dup_key,
}
use pecl_database_mysql_xdev.Connect.Attributes.Keys.{is_distinct}
use pecl_database_mysql_xdev.Connect.Attributes.Given.{given, some_refused}
use pecl_database_mysql_xdev.Connect.Attributes.Valid.{IsValid}

-- The attributes that the user's text spells: none if it says "true".
abbrev pub given_attributes : Bytes → List Attribute
given_attributes user_attribs =
    if iequals user_attribs (codes "true")
    then []
    else given (single_separator_split b',' user_attribs)

-- What a connection begins with: nothing when the user says "false"; and else what the user gives
-- and then what the client adds, a failure, or an exception.
pub data Outcome (client : Client) (user_attribs : Bytes) (is_a_list : Bool)
    : Result Thrown (Status × List Attribute) → Type 0 where
  disabled :
      iequals user_attribs (codes "false") ≡ true
      → Outcome client user_attribs is_a_list (ok (pass, []))
  sent :
      {c : List Attribute}
      → iequals user_attribs (codes "false") ≡ false
      → c ≡ given_attributes user_attribs
      → IsValid c
      → is_distinct (c ++ def_client_attribs client) ≡ true
      → Outcome client user_attribs is_a_list (ok (pass, c ++ def_client_attribs client))
  cleared :
      is_a_list ≡ true
      → some_refused (single_separator_split b',' user_attribs) ≡ true
      → Outcome client user_attribs is_a_list (ok (fail, []))
  left_list :
      is_a_list ≡ true
      → is_distinct (given_attributes user_attribs) ≡ false
      → Outcome client user_attribs is_a_list (err conn_attrib_dup_key)
  left_other :
      is_a_list ≡ false → Outcome client user_attribs is_a_list (err conn_attrib_wrong_type)

module _ (client : Client) (user_attribs : Bytes) where
  abbrev texts : List Bytes
  texts = single_separator_split b',' user_attribs
