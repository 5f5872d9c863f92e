-- ===== src/Connect/Authenticate.antt =====
-- The classes Gather_auth_mechanisms and Authenticate of xmysqlnd/xmysqlnd_session.cc. What the
-- server answers enters as arguments: its capabilities, whether the TLS connection is set up, and
-- whether it accepts a mechanism. `compress` is run_setup of Connect/Compression.antt. A run keeps
-- the exchanges it has begun, in order.
pub mod Safety
pub mod Tests
use pecl_database_mysql_xdev.Common.{
  ℕ, ◌==◌, ltb, Bool, true, false, not, ◌&&◌, ◌||◌, if◌then◌else◌, List, [], ◌∷◌, ◌++◌, Option,
  none, some, Result, ok, err, Bytes, codes, iequals, length, any,
}
use pecl_database_mysql_xdev.Connect.Values.{Value, undef, string, array, object, values, find}
use pecl_database_mysql_xdev.Connect.Compression.{Algorithm, Code, is_empty}

pub data SslMode : Type 0 where
  not_specified disabled any_secure required verify_ca verify_identity : SslMode

pub data AuthMechanism : Type 0 where
  unspecified mysql41 plain external sha256_memory : AuthMechanism

unfoldable pub auth_mechanism_to_str : AuthMechanism → Bytes
auth_mechanism_to_str mysql41 = codes "MYSQL41"
auth_mechanism_to_str plain = codes "PLAIN"
auth_mechanism_to_str external = codes "EXTERNAL"
auth_mechanism_to_str sha256_memory = codes "SHA256_MEMORY"
auth_mechanism_to_str unspecified = []

-- What is known of the user, of `Session_auth_data`.
pub record Auth : Type 0 where
  pub auth_mechanism : AuthMechanism
  pub ssl_mode : SslMode

abbrev pub is_tls_enabled : SslMode → Bool
is_tls_enabled disabled = false
is_tls_enabled mode = true

-- One value of the server's list names the mechanism.
unfoldable pub names_mechanism : AuthMechanism → Value → Bool
unfolding iequals auth_mechanism_to_str
names_mechanism m (string name) = iequals name (auth_mechanism_to_str m)
names_mechanism m v = false

abbrev pub listed : AuthMechanism → Value → Bool
listed m (array vs) = any (names_mechanism m) (values vs)
listed m v = false

unfoldable pub is_auth_mechanism_supported : Value → AuthMechanism → Bool
unfolding find names_mechanism
is_auth_mechanism_supported capabilities m =
    listed m (find (codes "authentication.mechanisms") capabilities)

unfoldable pub add_auth_mechanism_if_supported :
    Value → AuthMechanism → List AuthMechanism → List AuthMechanism
unfolding is_auth_mechanism_supported
add_auth_mechanism_if_supported capabilities m ms =
    if is_auth_mechanism_supported capabilities m then ms ++ m ∷ [] else ms

-- What `run` does where the user has named no mechanism.
abbrev pub default_mechanisms : Bool → Value → List AuthMechanism
default_mechanisms true capabilities = plain ∷ []
default_mechanisms false capabilities =
    add_auth_mechanism_if_supported capabilities sha256_memory
      (add_auth_mechanism_if_supported capabilities mysql41 [])

-- `Gather_auth_mechanisms::run`, with the list that it fills.
abbrev pub gather : AuthMechanism → SslMode → Value → List AuthMechanism
gather unspecified mode capabilities = default_mechanisms (is_tls_enabled mode) capabilities
gather m mode capabilities = m ∷ []

unfoldable pub gather_auth_mechanisms : Auth → Value → List AuthMechanism
unfolding add_auth_mechanism_if_supported
gather_auth_mechanisms auth capabilities = gather auth.auth_mechanism auth.ssl_mode capabilities

-- The exchanges with the server.
pub data Event : Type 0 where
  capabilities_get compression_setup crypto_setup : Event
  auth_start : AuthMechanism → Event

-- How an authentication ends: it returns true, returns false, or raises an error: the one the
-- server sent for its only mechanism, one for all mechanisms, or one of the compression.
pub data Verdict : Type 0 where
  authenticated refused server_error all_mechanisms_failed : Verdict
  compression_error : Code → Verdict

pub record Run : Type 0 where
  pub events : List Event
  pub verdict : Verdict
  -- `session->auth_mechanisms`, for the next authentication.
  pub auth_mechanisms : List AuthMechanism

-- How the server answers `auth_start`: it accepts, it closes the exchange, or it sends an error.
pub data Answer : Type 0 where
  accepts closes errors : Answer

module _ (answer : AuthMechanism → Answer) where
  -- The mechanisms that are tried, with the answer to the last of them. An error of the server
  -- ends the loop where `muted` is false, since its handler raises.
  unfoldable pub try_mechanisms : Bool → List AuthMechanism → List Event × Verdict
  try_mechanisms muted [] = ([], refused)
  try_mechanisms muted (m ∷ ms) =
      let more = try_mechanisms muted ms in
      elim (answer m) [
        | accepts ↦ (auth_start m ∷ [], authenticated)
        | closes ↦ (auth_start m ∷ more.0, more.1)
        | errors ↦
            if muted then (auth_start m ∷ more.0, more.1) else (auth_start m ∷ [], server_error)
      ]

  abbrev pub is_multiple_auth_mechanisms_algorithm : List AuthMechanism → Bool
  is_multiple_auth_mechanisms_algorithm ms = ltb 1 (length ms)

  -- What the loop ends with when no plugin has returned true.
  abbrev pub after_loop : Bool → Verdict → Verdict
  after_loop true refused = all_mechanisms_failed
  after_loop multiple v = v

  unfoldable pub authentication_loop : List AuthMechanism → List Event × Verdict
  unfolding try_mechanisms
  authentication_loop ms =
      let r = try_mechanisms (is_multiple_auth_mechanisms_algorithm ms) ms in
      (r.0, after_loop (is_multiple_auth_mechanisms_algorithm ms) r.1)

  unfoldable pub run_re_auth : List AuthMechanism → Run
  unfolding authentication_loop
  run_re_auth ms =
      let r = authentication_loop ms in record { events = r.0; verdict = r.1; auth_mechanisms = ms }

  -- From `gather_auth_mechanisms` on, behind the events `before`; `old` are the session's mechanisms.
  unfoldable pub authenticate : List Event → List AuthMechanism → List AuthMechanism → Run
  unfolding authentication_loop
  authenticate before old [] = record { events = before; verdict = refused; auth_mechanisms = old }
  authenticate before old (m ∷ ms) =
      let r = authentication_loop (m ∷ ms) in
      record { events = before ++ r.0; verdict = r.1; auth_mechanisms = m ∷ ms }

  module _ (compress : Value → Result Code Algorithm) (crypto : Bool) where
    abbrev pub halt : List Event → Verdict → List AuthMechanism → Run
    halt before v old = record { events = before; verdict = v; auth_mechanisms = old }

    abbrev pub is_set : Value → Bool
    is_set undef = false
    is_set v = true

    -- `init_connection`, and what follows it; `tls_set` is whether the server has TLS.
    unfoldable pub init_connection : SslMode → Bool → List AuthMechanism → List AuthMechanism → Run
    init_connection disabled tls_set old ms =
        authenticate (capabilities_get ∷ compression_setup ∷ []) old ms
    init_connection mode false old ms = halt (capabilities_get ∷ compression_setup ∷ []) refused old
    init_connection mode true old ms =
        if crypto
        then authenticate (capabilities_get ∷ compression_setup ∷ crypto_setup ∷ []) old ms
        else halt (capabilities_get ∷ compression_setup ∷ crypto_setup ∷ []) refused old

    abbrev pub compressed : Result Code Algorithm → Auth → Value → List AuthMechanism → Run
    compressed (err c) auth capabilities old =
        halt (capabilities_get ∷ compression_setup ∷ []) (compression_error c) old
    compressed (ok a) auth capabilities old =
        init_connection auth.ssl_mode (is_set (find (codes "tls") capabilities)) old
          (gather_auth_mechanisms auth capabilities)

    -- `init_capabilities` fails where the server's capabilities are `none`.
    unfoldable pub run_auth : Auth → Option Value → List AuthMechanism → Run
    unfolding authenticate init_connection gather_auth_mechanisms find
    run_auth auth none old = halt (capabilities_get ∷ []) refused old
    run_auth auth (some capabilities) old = compressed (compress capabilities) auth capabilities old
