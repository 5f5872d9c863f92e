-- ===== src/Connect/Authenticate/Safety.antt =====
-- What an authentication of xmysqlnd/xmysqlnd_session.cc sends, and how it ends.
use pecl_database_mysql_xdev.Common.{
  ◌<◌, ◌≡◌, ◌≢◌, ◌⊎◌, refl, inl, inr, ltb, Bool, Bool-cases, true, false, ◌||◌, List, [], ◌∷◌,
  Option, none, some, Result, ok, err, length, map, arith,
}
use pecl_database_mysql_xdev.Connect.Values.{Value}
use pecl_database_mysql_xdev.Connect.Compression.{Algorithm, Code}
use pecl_database_mysql_xdev.Connect.Authenticate.{
  SslMode, disabled, AuthMechanism, unspecified, mysql41, plain, external, sha256_memory, Auth,
  add_auth_mechanism_if_supported, default_mechanisms, gather, gather_auth_mechanisms, Event,
  capabilities_get, compression_setup, crypto_setup, auth_start, authenticated, refused,
  all_mechanisms_failed, Run, Answer, accepts, closes, errors, try_mechanisms, authentication_loop,
  run_re_auth, authenticate, init_connection, compressed, run_auth,
  is_multiple_auth_mechanisms_algorithm,
}

abbrev pub is_plain : AuthMechanism → Bool
is_plain plain = true
is_plain m = false

-- The password is sent in the clear form of the mechanism PLAIN.
abbrev pub sends_plain : List Event → Bool
sends_plain [] = false
sends_plain (auth_start m ∷ es) = is_plain m || sends_plain es
sends_plain (e ∷ es) = sends_plain es

abbrev pub has_plain : List AuthMechanism → Bool
has_plain [] = false
has_plain (m ∷ ms) = is_plain m || has_plain ms

abbrev pub NeverStarts : List Event → Type 0
NeverStarts [] = Unit
NeverStarts (auth_start m ∷ es) = ⊥
NeverStarts (e ∷ es) = NeverStarts es

-- No mechanism is started before the TLS set-up, and none after one that fails.
abbrev pub IsSecured : Bool → List Event → Type 0
IsSecured crypto [] = Unit
IsSecured crypto (auth_start m ∷ es) = ⊥
IsSecured crypto (crypto_setup ∷ es) = (crypto ≡ true) ⊎ NeverStarts es
IsSecured crypto (e ∷ es) = IsSecured crypto es

default_mechanisms-plain :
    (capabilities : Value) → has_plain (default_mechanisms false capabilities) ≡ false
unfolding add_auth_mechanism_if_supported
default_mechanisms-plain capabilities = ground arith

gather-plain :
    (m : AuthMechanism) (capabilities : Value)
    → m ≢ plain
    → has_plain (gather m disabled capabilities) ≡ false
gather-plain unspecified capabilities h = default_mechanisms-plain capabilities
gather-plain mysql41 capabilities h = refl
gather-plain plain capabilities h = absurd (h refl)
gather-plain external capabilities h = refl
gather-plain sha256_memory capabilities h = refl

module _ (answer : AuthMechanism → Answer) where
  try_mechanisms-plain :
      (muted : Bool) (ms : List AuthMechanism)
      → has_plain ms ≡ false
      → sends_plain (try_mechanisms answer muted ms).0 ≡ false
  unfolding try_mechanisms
  try_mechanisms-plain muted [] h = refl
  try_mechanisms-plain muted (m ∷ ms) h = ground (arith, try_mechanisms-plain muted ms)

  abbrev pub any_accepts : List AuthMechanism → Bool
  any_accepts [] = false
  any_accepts (m ∷ ms) = elim (answer m) [
    | accepts ↦ true
    | closes ↦ any_accepts ms
    | errors ↦ any_accepts ms
  ]

  try_muted :
      (ms : List AuthMechanism)
      → (any_accepts ms ≡ true → (try_mechanisms answer true ms).1 ≡ authenticated)
        × (any_accepts ms ≡ false → try_mechanisms answer true ms ≡ (map auth_start ms, refused))
  unfolding try_mechanisms
  try_muted [] = ((λ e. cc), (λ e. refl))
  try_muted (m ∷ ms) = ground (arith, try_muted ms)

  -- With two mechanisms or more, the loop authenticates where the server accepts one of them;
  -- otherwise it has tried all of them, in order, and raises one error for all.
  pub authentication_loop-multiple :
      (ms : List AuthMechanism)
      → 1 < length ms
      → (any_accepts ms ≡ true → (authentication_loop answer ms).1 ≡ authenticated)
        × (any_accepts ms ≡ false
            → authentication_loop answer ms ≡ (map auth_start ms, all_mechanisms_failed))
  unfolding authentication_loop
  authentication_loop-multiple ms h =
      let multiple : ltb 1 (length ms) ≡ true = ground arith in
      let t = try_muted ms in ((λ e. rw (multiple, t.0 e) refl), (λ e. rw (multiple, t.1 e) refl))

  loop-plain :
      (ms : List AuthMechanism)
      → has_plain ms ≡ false
      → sends_plain (authentication_loop answer ms).0 ≡ false
  unfolding authentication_loop
  loop-plain ms h = try_mechanisms-plain (is_multiple_auth_mechanisms_algorithm answer ms) ms h

  module _ (compress : Value → Result Code Algorithm) (crypto : Bool) where
    authenticate-plain :
        (old ms : List AuthMechanism)
        → has_plain ms ≡ false
        → sends_plain
            (authenticate answer (capabilities_get ∷ compression_setup ∷ []) old ms).events
          ≡ false
    unfolding authenticate
    authenticate-plain old [] h = refl
    authenticate-plain old (m ∷ ms) h = loop-plain (m ∷ ms) h

    compressed-plain :
        (r : Result Code Algorithm) (m : AuthMechanism) (capabilities : Value)
        (old : List AuthMechanism)
        → m ≢ plain
        → sends_plain
            (compressed answer compress crypto r
              (record { auth_mechanism = m; ssl_mode = disabled })
              capabilities
              old).events
          ≡ false
    unfolding init_connection gather_auth_mechanisms
    compressed-plain (err c) m capabilities old h = refl
    compressed-plain (ok a) m capabilities old h =
        authenticate-plain old (gather m disabled capabilities) (gather-plain m capabilities h)

    -- With TLS disabled, a user who has not asked for PLAIN never sends the password by it.
    pub run_auth-plain :
        (m : AuthMechanism) (capabilities : Option Value) (old : List AuthMechanism)
        → m ≢ plain
        → sends_plain
            (run_auth answer compress crypto
              (record { auth_mechanism = m; ssl_mode = disabled })
              capabilities
              old).events
          ≡ false
    unfolding run_auth
    run_auth-plain m none old h = refl
    run_auth-plain m (some capabilities) old h =
        compressed-plain (compress capabilities) m capabilities old h

    authenticate-IsSecured :
        (old ms : List AuthMechanism)
        → crypto ≡ true
        → IsSecured crypto
            (authenticate answer
              (capabilities_get ∷ compression_setup ∷ crypto_setup ∷ [])
              old
              ms).events
    unfolding authenticate
    authenticate-IsSecured old [] h = inl h
    authenticate-IsSecured old (m ∷ ms) h = inl h

    init_connection-IsSecured :
        (mode : SslMode) (tls_set : Bool) (old ms : List AuthMechanism)
        → mode ≢ disabled
        → IsSecured crypto (init_connection answer compress crypto mode tls_set old ms).events
    unfolding init_connection
    init_connection-IsSecured mode tls_set old ms h = elim (Bool-cases crypto) [
      | inl e ↦ ground (arith, e, authenticate-IsSecured old ms e)
      | inr e ↦ ground arith
    ]

    compressed-IsSecured :
        (r : Result Code Algorithm) (auth : Auth) (capabilities : Value) (old : List AuthMechanism)
        → auth.ssl_mode ≢ disabled
        → IsSecured crypto (compressed answer compress crypto r auth capabilities old).events
    compressed-IsSecured (err c) auth capabilities old h = tt
    compressed-IsSecured (ok a) auth capabilities old h =
        init_connection-IsSecured auth.ssl_mode _ old _ h

    -- With an SSL mode other than `disabled`, no mechanism is started before the TLS set-up has been
    -- made, and none at all where the TLS set-up fails.
    pub run_auth-IsSecured :
        (auth : Auth) (capabilities : Option Value) (old : List AuthMechanism)
        → auth.ssl_mode ≢ disabled
        → IsSecured crypto (run_auth answer compress crypto auth capabilities old).events
    unfolding run_auth
    run_auth-IsSecured auth none old h = tt
    run_auth-IsSecured auth (some capabilities) old h =
        compressed-IsSecured (compress capabilities) auth capabilities old h

    -- The session's mechanisms authenticate again.
    abbrev Repeats : Run → Type 0
    Repeats r =
        r.verdict ≡ authenticated → (run_re_auth answer r.auth_mechanisms).verdict ≡ authenticated

    authenticate-Repeats :
        (before : List Event) (old ms : List AuthMechanism)
        → Repeats (authenticate answer before old ms)
    unfolding authenticate run_re_auth
    authenticate-Repeats before old [] = λ e. cc
    authenticate-Repeats before old (m ∷ ms) = λ e. e

    init_connection-Repeats :
        (mode : SslMode) (tls_set : Bool) (old ms : List AuthMechanism)
        → Repeats (init_connection answer compress crypto mode tls_set old ms)
    unfolding init_connection
    init_connection-Repeats disabled tls_set old ms = authenticate-Repeats _ old ms
    init_connection-Repeats mode false old ms = λ e. cc
    init_connection-Repeats mode true old ms = elim (Bool-cases crypto) [
      | inl e ↦ rw e (authenticate-Repeats _ old ms)
      | inr e ↦ rw e (λ x. cc)
    ]

    compressed-Repeats :
        (r : Result Code Algorithm) (auth : Auth) (capabilities : Value) (old : List AuthMechanism)
        → Repeats (compressed answer compress crypto r auth capabilities old)
    compressed-Repeats (err c) auth capabilities old = λ e. cc
    compressed-Repeats (ok a) auth capabilities old = init_connection-Repeats auth.ssl_mode _ old _

    -- After a successful authentication, authenticating again with the mechanisms that the
    -- session has kept succeeds where the server answers as before.
    run_auth-run_re_auth :
        (auth : Auth) (capabilities : Option Value) (old : List AuthMechanism)
        → (run_auth answer compress crypto auth capabilities old).verdict ≡ authenticated
        → (run_re_auth answer
            (run_auth answer compress crypto auth capabilities old).auth_mechanisms).verdict
          ≡ authenticated
    unfolding run_auth
    run_auth-run_re_auth auth none old = λ e. cc
    run_auth-run_re_auth auth (some capabilities) old =
        compressed-Repeats (compress capabilities) auth capabilities old
