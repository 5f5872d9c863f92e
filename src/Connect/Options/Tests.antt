-- ===== src/Connect/Options/Tests.antt =====
-- Runs of the options.
use pecl_database_mysql_xdev.Common.{
  ◌≡◌, refl, true, false, [], ◌∷◌, Option, none, some, Result, ok, err, ◌>>=◌, Bytes, codes,
  iequals,
}
use pecl_database_mysql_xdev.Connect.Authenticate.{SslMode, required, disabled}
use pecl_database_mysql_xdev.Connect.Options.{
  AuthData, initial, tls_v1_2, Code, unknown_tls_version, undefined_behaviour, extract_query,
}
use pecl_database_mysql_xdev.Connect.Options.Values.{single_separator_split}
use pecl_database_mysql_xdev.Connect.Options.Security.{is_off, extract_query-ssl_mode}

mode_of : Bytes → Result Code (Option SslMode)
unfolding extract_query
mode_of query = do
  a ← extract_query true query
  ok (elim a [ none ↦ none | some b ↦ some b.ssl_mode ])

run_default : mode_of (codes "compression=required") ≡ ok (some required)
unfolding mode_of
run_default = refl

run_last :
    mode_of (codes "ssl-ca=x&SSL-mode=Disabled&tls-version=[TLSv1.1, tlsv1.2]") ≡ ok (some disabled)
unfolding mode_of
run_last = refl

run_old : mode_of (codes "tls-version=TLSv1.1") ≡ err unknown_tls_version
unfolding mode_of
run_old = refl

run_unknown : mode_of (codes "tls-version=TLSv2") ≡ err undefined_behaviour
unfolding mode_of
run_unknown = refl

abbrev query : Bytes
query = codes "ssl-ca=x&tls-version=[TLSv1.1, tlsv1.2]"

abbrev secure : AuthData
secure = record initial {
  ssl_mode = required;
  ssl_cafile = codes "x";
  tls_versions = tls_v1_2 ∷ [];
}

run_secure : extract_query true query ≡ ok (some secure)
unfolding extract_query
run_secure = refl

extract_query-ssl_mode_example : is_off secure.ssl_mode ≡ false
unfolding single_separator_split iequals
extract_query-ssl_mode_example = extract_query-ssl_mode true query secure refl run_secure
