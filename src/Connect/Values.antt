-- ===== src/Connect/Values.antt =====
-- The values of util/value.h that a server's capabilities are made of.
use pecl_database_mysql_xdev.Common.{
  Bool, true, false, if◌then◌else◌, List, [], ◌∷◌, Bytes, same_text,
}

mutual
  pub data Value : Type 0 where
    undef : Value
    string : Bytes → Value
    array object : Fields → Value

  -- The entries of an array or the properties of an object, with their keys.
  pub data Fields : Type 0 where
    no_fields : Fields
    field : Bytes → Value → Fields → Fields

abbrev pub is_array : Value → Bool
is_array (array fs) = true
is_array v = false

abbrev pub is_object : Value → Bool
is_object (object fs) = true
is_object v = false

-- `zvalue()` where the key is missing.
unfoldable pub lookup : Bytes → Fields → Value
unfolding same_text
lookup key no_fields = undef
lookup key (field name v fs) = if same_text name key then v else lookup key fs

-- `zvalue::find`, which is `operator[]`, on an array, and `get_property` on an object.
unfoldable pub find : Bytes → Value → Value
unfolding lookup
find key (array fs) = lookup key fs
find key (object fs) = lookup key fs
find key undef = undef
find key (string s) = undef

abbrev pub values : Fields → List Value
values no_fields = []
values (field name v fs) = v ∷ values fs
