-- ===== src/Connect/Authenticate/Tests.antt =====
-- Runs of an authentication.
use pecl_database_mysql_xdev.Common.{
  ◌≡◌, refl, arith, true, false, [], ◌∷◌, some, Result, ok, codes, map,
}
use pecl_database_mysql_xdev.Connect.Values.{Value, string, array, no_fields, field}
use pecl_database_mysql_xdev.Connect.Compression.{Algorithm, Code, none_}
use pecl_database_mysql_xdev.Connect.Authenticate.{
  SslMode, disabled, required, AuthMechanism, unspecified, mysql41, sha256_memory, Auth,
  capabilities_get, compression_setup, auth_start, authenticated, all_mechanisms_failed, Answer,
  accepts, errors, authentication_loop, run_auth,
}
use pecl_database_mysql_xdev.Connect.Authenticate.Safety.{
  sends_plain, IsSecured, any_accepts, authentication_loop-multiple, run_auth-plain,
  run_auth-IsSecured,
}

abbrev server : Value
server = array (
    field (codes "tls") (string []) (
      field (codes "authentication.mechanisms")
        (array (
          field [] (string (codes "MYSQL41"))
            (field [] (string (codes "sha256_memory")) no_fields)))
        no_fields))

-- The user is known by the cached hash of SHA256_MEMORY only.
abbrev answer : AuthMechanism → Answer
answer sha256_memory = accepts
answer m = errors

abbrev compress : Value → Result Code Algorithm
compress v = ok none_

abbrev user : SslMode → Auth
user mode = record { auth_mechanism = unspecified; ssl_mode = mode }

run_both : run_auth answer compress true (user disabled) (some server) [] ≡ record {
  events =
      capabilities_get ∷ compression_setup ∷ auth_start mysql41 ∷ auth_start sha256_memory ∷ [];
  verdict = authenticated;
  auth_mechanisms = mysql41 ∷ sha256_memory ∷ [];
}
unfolding run_auth
run_both = refl

authentication_loop-multiple_example :
    (any_accepts answer (mysql41 ∷ sha256_memory ∷ []) ≡ true
      → (authentication_loop answer (mysql41 ∷ sha256_memory ∷ [])).1 ≡ authenticated)
    × (any_accepts answer (mysql41 ∷ sha256_memory ∷ []) ≡ false
        → authentication_loop answer (mysql41 ∷ sha256_memory ∷ [])
          ≡ (map auth_start (mysql41 ∷ sha256_memory ∷ []), all_mechanisms_failed))
authentication_loop-multiple_example =
    authentication_loop-multiple answer (mysql41 ∷ sha256_memory ∷ []) (omega arith)

run_auth-plain_example :
    sends_plain (run_auth answer compress true (user disabled) (some server) []).events ≡ false
run_auth-plain_example = run_auth-plain answer compress true unspecified (some server) [] (λ e. cc)

run_auth-IsSecured_example :
    IsSecured true (run_auth answer compress true (user required) (some server) []).events
run_auth-IsSecured_example =
    run_auth-IsSecured answer compress true (user required) (some server) [] (λ e. cc)
