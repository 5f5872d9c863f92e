-- ===== src/Fields/Types.antt =====
-- The choice of a decoder by the type of the column: xmysqlnd_row_field_to_zval and
-- get_datetime_type of xmysqlnd/xmysqlnd_wireprotocol.cc.
use pecl_database_mysql_xdev.Common.{
  ℕ, ◌==◌, Bool, false, if◌then◌else◌, [], ◌∷◌, Result, ok, pass, Bytes, Option, none, some,
}
use pecl_database_mysql_xdev.Fields.{
  Decoded, null, Fault, Library, read, sint_field, uint_field, double_field, float_field,
  string_field, time_field, datetime_field, date_field,
}
use pecl_database_mysql_xdev.Fields.Decimal.{decimal_field}
use pecl_database_mysql_xdev.Fields.Sets.{set_field}

-- `xmysqlnd_field_type`.
pub data FieldType : Type 0 where
  signed_int unsigned_int double float bytes time datetime set enum bit decimal none_ : FieldType

-- The description of a column, as far as its fields are decoded by it. Its content type is `none`
-- where content_type_set is false.
pub record FieldMeta : Type 0 where
  pub type : FieldType
  pub fractional_digits : ℕ
  pub content_type : Option ℕ

-- Whether `get_datetime_type` is FIELD_TYPE_DATE, Mysqlx::Resultset::DATE being 1.
abbrev pub is_date : Option ℕ → Bool
is_date none = false
is_date (some type) = type == 1

module _ (lib : Library) where
  abbrev pub decode_as : FieldType → FieldMeta → Bytes → Result Fault Decoded
  decode_as signed_int meta buf = ok (sint_field lib buf)
  decode_as bit meta buf = ok (uint_field lib buf)
  decode_as unsigned_int meta buf = ok (uint_field lib buf)
  decode_as FieldType.double meta buf = ok (double_field lib buf)
  decode_as float meta buf = ok (float_field lib meta.fractional_digits buf)
  decode_as enum meta buf = ok (string_field buf)
  decode_as bytes meta buf = ok (string_field buf)
  decode_as time meta buf = ok (time_field lib buf)
  decode_as datetime meta buf =
      ok (if is_date meta.content_type then date_field lib buf else datetime_field lib buf)
  decode_as set meta buf = set_field (read lib) buf
  decode_as decimal meta buf = decimal_field buf
  decode_as none_ meta buf = ok (pass, null)

  unfoldable pub field_to_zval : FieldMeta → Bytes → Result Fault Decoded
  unfolding sint_field uint_field double_field float_field string_field time_field datetime_field
      date_field set_field decimal_field
  field_to_zval meta [] = ok (pass, null)
  field_to_zval meta (b ∷ buf) = decode_as meta.type meta (b ∷ buf)
