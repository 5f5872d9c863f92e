-- ===== src/Clients.antt =====
-- The options of a client, mysqlx_client.cc: Client_options_parser, parse_client_options, with
-- to_optional_value of util/value.inl. What php_json_decode makes of a text is an argument.
pub mod Choice
pub mod Tests
use pecl_database_mysql_xdev.Common.{
  ℕ, ◌-◌, ◌%◌, ◌^◌, ltb, leb, ◌||◌, Bool, true, false, if◌then◌else◌, List, [], ◌∷◌, Option, none,
  some, Result, ok, err, ◌>>=◌, Bytes, codes, same_text, ℤ, pos, negsuc,
}
use pecl_database_mysql_xdev.Pool.{Options, default_options}

-- A decoded value, as far as options need it; `long` is a zend_long.
pub data OptionValue : Type 0 where
  null other : OptionValue
  boolean : Bool → OptionValue
  long : ℤ → OptionValue

-- A decoded text: an object with its properties, or something else.
pub data Document : Type 0 where
  object : List (Bytes × OptionValue) → Document
  no_object : Document

pub data Thrown : Type 0 where
  json_parse_error json_object_expected : Thrown
  not_recognized not_supported : Bytes → Thrown

abbrev pub enabled_name : Bytes
enabled_name = codes "enabled"

abbrev pub max_size_name : Bytes
max_size_name = codes "maxSize"

abbrev pub max_idle_time_name : Bytes
max_idle_time_name = codes "maxIdleTime"

abbrev pub queue_timeout_name : Bytes
queue_timeout_name = codes "queueTimeOut"

unfoldable pub is_allowed : Bytes → Bool
unfolding same_text
is_allowed name =
    same_text name enabled_name
    || (same_text name max_size_name
        || (same_text name max_idle_time_name || same_text name queue_timeout_name))

-- `verify_options_description`: what it throws, if it does.
unfoldable pub verify : List (Bytes × OptionValue) → Option Thrown
unfolding is_allowed
verify [] = none
verify ((name, v) ∷ fs) =
    let rest = verify fs in if is_allowed name then rest else some (not_recognized name)

-- `get_property`; a property that is missing or null has no value.
unfoldable pub get_property : Bytes → List (Bytes × OptionValue) → OptionValue
unfolding same_text
get_property key [] = null
get_property key ((name, v) ∷ fs) =
    let rest = get_property key fs in if same_text name key then v else rest

-- `to_int32`: a cast of 64 bits to 32.
abbrev pub to_int32 : ℤ → ℤ
to_int32 (pos n) =
    let low = n % 2 ^ 32 in if ltb low (2 ^ 31) then pos low else negsuc (2 ^ 32 - 1 - low)
to_int32 (negsuc n) =
    let low = n % 2 ^ 32 in if ltb low (2 ^ 31) then negsuc low else pos (2 ^ 32 - 1 - low)

-- The checks `0 < val` and `0 <= val` of a number.
abbrev pub checked : Bytes → ℕ → ℤ → Result Thrown ℕ
checked name least (pos n) = if leb least n then ok n else err (not_supported name)
checked name least (negsuc n) = err (not_supported name)

-- `assign_option` for a Boolean and for an int: what the option becomes.
abbrev pub assign_bool : Bytes → Bool → OptionValue → Result Thrown Bool
assign_bool name old null = ok old
assign_bool name old (boolean b) = ok b
assign_bool name old (long z) = err (not_supported name)
assign_bool name old other = err (not_supported name)

abbrev pub assign_int : Bytes → ℕ → ℕ → OptionValue → Result Thrown ℕ
assign_int name least old null = ok old
assign_int name least old (long z) = checked name least (to_int32 z)
assign_int name least old (boolean b) = err (not_supported name)
assign_int name least old other = err (not_supported name)

unfoldable pub assign_options : List (Bytes × OptionValue) → Options → Result Thrown Options
unfolding get_property
assign_options fs o =
    assign_bool enabled_name o.enabled (get_property enabled_name fs) >>= λ enabled.
    assign_int max_size_name 1 o.max_size (get_property max_size_name fs) >>= λ size.
    assign_int max_idle_time_name 0 o.max_idle_time (get_property max_idle_time_name fs) >>= λ idle.
    assign_int queue_timeout_name 0 o.queue_timeout (get_property queue_timeout_name fs)
    >>= λ timeout. ok (record {
      enabled = enabled;
      max_size = size;
      max_idle_time = idle;
      queue_timeout = timeout;
    })

abbrev pub unless_thrown : Option Thrown → Result Thrown Options → Result Thrown Options
unless_thrown none r = r
unless_thrown (some thrown) r = err thrown

-- `Client_options_parser::run`.
unfoldable pub run_parser : Document → Result Thrown Options
unfolding verify assign_options
run_parser no_object = err json_object_expected
run_parser (object fs) = unless_thrown (verify fs) (assign_options fs default_options)

abbrev pub run_decoded : Option Document → Result Thrown Options
unfolding run_parser
run_decoded none = err json_parse_error
run_decoded (some document) = run_parser document

unfoldable pub parse_client_options : (Bytes → Option Document) → Bytes → Result Thrown Options
unfolding run_parser
parse_client_options parse_document [] = ok default_options
parse_client_options parse_document (b ∷ text) = run_decoded (parse_document (b ∷ text))
