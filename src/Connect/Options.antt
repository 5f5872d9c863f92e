-- ===== src/Connect/Options.antt =====
-- The options of a connection string, the class Extract_client_option and the loop of
-- extract_auth_information in xmysqlnd/xmysqlnd_session.cc. Whether OpenSSL has TLS 1.3 is the
-- argument `tlsv13`. A read through the end of a map, which C++ leaves undefined, is the error
-- `undefined_behaviour`.
pub mod Values
pub mod Security
pub mod Tests
use pecl_database_mysql_xdev.Common.{
  ℕ, ◌==◌, Bool, true, false, not, ◌&&◌, ◌||◌, if◌then◌else◌, List, [], ◌∷◌, ◌++◌, Option, none,
  some, Result, ok, err, ◌>>=◌, Bytes, codes, iequals, ℤ, pos, negsuc,
}
use pecl_database_mysql_xdev.Connect.Compression.{Policy}
use pecl_database_mysql_xdev.Connect.Compression
use pecl_database_mysql_xdev.Connect.Authenticate.{
  SslMode, AuthMechanism, unspecified, mysql41, plain, external, sha256_memory,
}
use pecl_database_mysql_xdev.Connect.Authenticate
use Values.{
  single_separator_split, is_empty, parse_single_or_array, to_int, find_name, all_algorithm_names,
}

pub data TlsVersion : Type 0 where
  unspecified_version tls_v1_2 tls_v1_3 : TlsVersion

-- The codes of `xdevapi_exception` that the options raise.
pub data Code : Type 0 where
  unknown_client_conn_option invalid_argument unknown_ssl_mode invalid_auth_mechanism
        unknown_tls_version invalid_timeout :
      Code
  compression_invalid_algorithm_name undefined_behaviour : Code

-- `Session_auth_data`, as far as the options set it.
pub record AuthData : Type 0 where
  pub connection_timeout : Option ℕ
  pub compression_policy : Policy
  pub compression_algorithms : Option (List Bytes)
  pub ssl_mode : SslMode
  pub ssl_no_defaults : Bool
  pub tls_versions : List TlsVersion
  pub tls_ciphersuites : List Bytes
  pub ssl_local_pk : Bytes
  pub ssl_local_cert : Bytes
  pub ssl_cafile : Bytes
  pub ssl_capath : Bytes
  pub ssl_ciphers : List Bytes
  pub auth_mechanism : AuthMechanism

abbrev pub initial : AuthData
initial = record {
  connection_timeout = none;
  compression_policy = Compression.preferred;
  compression_algorithms = none;
  ssl_mode = Authenticate.not_specified;
  ssl_no_defaults = true;
  tls_versions = [];
  tls_ciphersuites = [];
  ssl_local_pk = [];
  ssl_local_cert = [];
  ssl_cafile = [];
  ssl_capath = [];
  ssl_ciphers = [];
  auth_mechanism = unspecified;
}

-- The entries of `option_to_info`, by their setters.
pub data Setter : Type 0 where
  set_ssl_mode set_ssl_no_defaults set_auth_mechanism set_ssl_client_key set_ssl_client_cert
        set_ssl_cafile :
      Setter
  set_ssl_capath set_ssl_ciphers set_tls_versions set_tls_ciphersuites set_connect_timeout
        set_compression :
      Setter
  set_compression_algorithms : Setter

abbrev pub option_to_info : List (Bytes × Setter)
option_to_info =
    (codes "ssl-mode", set_ssl_mode)
    ∷ (codes "ssl-no-defaults", set_ssl_no_defaults)
    ∷ (codes "auth", set_auth_mechanism)
    ∷ (codes "ssl-key", set_ssl_client_key)
    ∷ (codes "ssl-cert", set_ssl_client_cert)
    ∷ (codes "ssl-ca", set_ssl_cafile)
    ∷ (codes "ssl-capath", set_ssl_capath)
    ∷ (codes "ssl-cipher", set_ssl_ciphers)
    ∷ (codes "ssl-ciphers", set_ssl_ciphers)
    ∷ (codes "tls-version", set_tls_versions)
    ∷ (codes "tls-versions", set_tls_versions)
    ∷ (codes "tls-ciphersuite", set_tls_ciphersuites)
    ∷ (codes "tls-ciphersuites", set_tls_ciphersuites)
    ∷ (codes "connect-timeout", set_connect_timeout)
    ∷ (codes "compression", set_compression)
    ∷ (codes "compression-algorithms", set_compression_algorithms)
    ∷ []

abbrev pub requires_value : Setter → Bool
requires_value set_ssl_no_defaults = false
requires_value s = true

abbrev pub is_secure : Setter → Bool
is_secure set_ssl_client_key = true
is_secure set_ssl_client_cert = true
is_secure set_ssl_cafile = true
is_secure set_ssl_capath = true
is_secure set_ssl_ciphers = true
is_secure set_tls_versions = true
is_secure set_tls_ciphersuites = true
is_secure s = false

abbrev pub found {ℓ} : {A : Type ℓ} → Code → Option A → Result Code A
found code none = err code
found code (some a) = ok a

abbrev pub mode_mapping : List (Bytes × SslMode)
mode_mapping =
    (codes "required", Authenticate.required)
    ∷ (codes "disabled", Authenticate.disabled)
    ∷ (codes "verify_ca", Authenticate.verify_ca)
    ∷ (codes "verify_identity", Authenticate.verify_identity)
    ∷ []

unfoldable pub parse_ssl_mode : Bytes → Result Code SslMode
parse_ssl_mode s = found unknown_ssl_mode (find_name s mode_mapping)

unfoldable pub parse_auth_mechanism : Bytes → Result Code AuthMechanism
parse_auth_mechanism s = found invalid_auth_mechanism (
    find_name s (
      (codes "MYSQL41", mysql41)
      ∷ (codes "PLAIN", plain)
      ∷ (codes "EXTERNAL", external)
      ∷ (codes "SHA256_MEMORY", sha256_memory)
      ∷ []))

unfoldable pub parse_compression_policy : Bytes → Result Code Policy
parse_compression_policy s = found invalid_argument (
    find_name s (
      (codes "required", Compression.required)
      ∷ (codes "preferred", Compression.preferred)
      ∷ (codes "disabled", Compression.disabled)
      ∷ []))

-- `assign_ssl_mode`: each of its branches sets the mode, where it is not that mode already.
abbrev pub assign_ssl_mode : SslMode → AuthData → AuthData
assign_ssl_mode mode a = record a { ssl_mode = mode }

abbrev pub is_unspecified : AuthMechanism → Bool
is_unspecified unspecified = true
is_unspecified m = false

abbrev pub mechanism_index : AuthMechanism → ℕ
mechanism_index unspecified = 0
mechanism_index mysql41 = 1
mechanism_index plain = 2
mechanism_index external = 3
mechanism_index sha256_memory = 4

unfoldable pub assign_auth_mechanism : AuthMechanism → AuthData → Result Code AuthData
assign_auth_mechanism m a =
    if is_unspecified a.auth_mechanism
    then ok (record a { auth_mechanism = m })
    else if mechanism_index a.auth_mechanism == mechanism_index m
    then ok a
    else err invalid_auth_mechanism

-- The loop over the TLS versions: those that are known and supported are added.
abbrev pub add_version : Option TlsVersion → List TlsVersion → Result Code (List TlsVersion)
add_version none vs = err undefined_behaviour
add_version (some unspecified_version) vs = ok vs
add_version (some v) vs = ok (vs ++ v ∷ [])

abbrev pub checked_versions : AuthData → List TlsVersion → Result Code AuthData
checked_versions a vs =
    if is_empty vs then err unknown_tls_version else ok (record a { tls_versions = vs })

abbrev pub checked_timeout : AuthData → ℤ → Result Code AuthData
checked_timeout a (pos n) = ok (record a { connection_timeout = some n })
checked_timeout a (negsuc n) = err invalid_timeout

abbrev pub checked_algorithms : AuthData → List Bytes → Result Code AuthData
checked_algorithms a names =
    if all_algorithm_names names
    then ok (record a { compression_algorithms = some names })
    else err compression_invalid_algorithm_name

-- `ensure_ssl_mode`.
abbrev pub ensured : SslMode → SslMode
ensured Authenticate.not_specified = Authenticate.any_secure
ensured mode = mode

abbrev pub ensure_ssl_mode : Bool → AuthData → AuthData
ensure_ssl_mode secure a = if secure then record a { ssl_mode = ensured a.ssl_mode } else a

-- The text before the first `=` and behind it.
abbrev pub variable : Bytes → Bytes
variable [] = []
variable (c ∷ cs) = if c == b'=' then [] else c ∷ variable cs

abbrev pub value_of : Bytes → Bytes
value_of [] = []
value_of (c ∷ cs) = if c == b'=' then cs else value_of cs

-- No mode, or any secure one, becomes `required`.
abbrev pub final_mode : SslMode → SslMode
final_mode Authenticate.not_specified = Authenticate.required
final_mode Authenticate.any_secure = Authenticate.required
final_mode mode = mode

abbrev pub finished : Option AuthData → Option AuthData
finished none = none
finished (some a) = some (record a { ssl_mode = final_mode a.ssl_mode })

module _ (tlsv13 : Bool) where
  abbrev pub name_to_protocols : List (Bytes × TlsVersion)
  name_to_protocols =
      (codes "TLSv1", unspecified_version)
      ∷ (codes "TLSv1.0", unspecified_version)
      ∷ (codes "TLSv1.1", unspecified_version)
      ∷ (codes "TLSv1.2", tls_v1_2)
      ∷ (if tlsv13 then (codes "TLSv1.3", tls_v1_3) ∷ [] else [])

  unfoldable pub add_versions : List Bytes → List TlsVersion → Result Code (List TlsVersion)
  add_versions [] vs = ok vs
  add_versions (name ∷ names) vs = do
    next ← add_version (find_name name name_to_protocols) vs
    add_versions names next

  -- `(this->*setter)(value)`.
  unfoldable pub apply : Setter → Bytes → AuthData → Result Code AuthData
  unfolding parse_ssl_mode parse_auth_mechanism assign_auth_mechanism add_versions
      parse_single_or_array to_int parse_compression_policy
  apply set_ssl_mode value a = do mode ← parse_ssl_mode value; ok (assign_ssl_mode mode a)
  apply set_ssl_no_defaults value a = ok (record a { ssl_no_defaults = true })
  apply set_auth_mechanism value a = do m ← parse_auth_mechanism value; assign_auth_mechanism m a
  apply set_ssl_client_key value a = ok (record a { ssl_local_pk = value })
  apply set_ssl_client_cert value a = ok (record a { ssl_local_cert = value })
  apply set_ssl_cafile value a = ok (record a { ssl_cafile = value })
  apply set_ssl_capath value a = ok (record a { ssl_capath = value })
  apply set_ssl_ciphers value a = ok (record a { ssl_ciphers = parse_single_or_array value })
  apply set_tls_versions value a = do
    vs ← add_versions (parse_single_or_array value) a.tls_versions
    checked_versions a vs
  apply set_tls_ciphersuites value a =
      ok (record a { tls_ciphersuites = parse_single_or_array value })
  apply set_connect_timeout value a = do
    n ← found invalid_argument (to_int value)
    checked_timeout a n
  apply set_compression value a = do
    policy ← parse_compression_policy value
    ok (record a { compression_policy = policy })
  apply set_compression_algorithms value a = checked_algorithms a (parse_single_or_array value)

  abbrev pub run_setter : Setter → Bytes → AuthData → Result Code AuthData
  run_setter s value a =
      if requires_value s && is_empty value
      then err invalid_argument
      else do b ← apply s value a; ok (ensure_ssl_mode (is_secure s) b)

  -- `Extract_client_option::run`.
  unfoldable pub extract_client_option : Bytes → Bytes → AuthData → Result Code AuthData
  unfolding apply
  extract_client_option name value a = do
    s ← found unknown_client_conn_option (find_name name option_to_info)
    run_setter s value a

  -- The loop over the options; `none` where the call returns no data.
  unfoldable pub extract_options : List Bytes → AuthData → Result Code (Option AuthData)
  unfolding extract_client_option
  extract_options [] a = ok (some a)
  extract_options (option ∷ options) a =
      let skipped = extract_options options a in
      let taken = (do
        b ← extract_client_option (variable option) (value_of option) a
        extract_options options b) in
      if is_empty option || is_empty (variable option)
      then ok none
      else if iequals (variable option) (codes "connection-attributes")
      then skipped
      else taken

  -- What `extract_auth_information` makes of the query of a URL.
  unfoldable pub extract_query : Bytes → Result Code (Option AuthData)
  unfolding extract_options single_separator_split iequals
  extract_query query = do
    a ← extract_options (single_separator_split b'&' query) initial
    ok (finished a)
