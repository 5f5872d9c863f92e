-- ===== src/Connect/Options/Security.antt =====
-- Which options of xmysqlnd/xmysqlnd_session.cc decide on TLS.
use pecl_database_mysql_xdev.Common.{
  ◌≡◌, ◌≢◌, refl, ◌⊎◌, inl, inr, subst, Bool, Bool-cases, true, false, ◌&&◌, ◌||◌, if◌then◌else◌,
  List, [], ◌∷◌, Option, none, some, Result, ok, err, ◌>>=◌, Bytes, codes, iequals, ℤ, pos, negsuc,
  arith,
}
use pecl_database_mysql_xdev.Connect.Authenticate.{SslMode, disabled, AuthMechanism}
use pecl_database_mysql_xdev.Connect.Options.Values.{
  single_separator_split, is_empty, parse_single_or_array, to_int, find_name, all_algorithm_names,
}
use pecl_database_mysql_xdev.Connect.Options.{
  Code, unknown_ssl_mode, unknown_tls_version, compression_invalid_algorithm_name, mode_mapping,
  invalid_argument, unknown_client_conn_option, AuthData, initial, Setter, set_ssl_mode,
  set_ssl_no_defaults, set_auth_mechanism, set_ssl_client_key, set_ssl_client_cert, set_ssl_cafile,
  set_ssl_capath, set_ssl_ciphers, set_tls_versions, set_tls_ciphersuites, set_connect_timeout,
  set_compression, set_compression_algorithms, option_to_info, found, parse_auth_mechanism,
  assign_ssl_mode, assign_auth_mechanism, parse_compression_policy, add_versions, checked_versions,
  checked_timeout, apply, ensured, ensure_ssl_mode, is_secure, requires_value, run_setter,
  extract_client_option, variable, value_of, extract_options, final_mode, finished, extract_query,
}

abbrev pub is_off : SslMode → Bool
is_off disabled = true
is_off mode = false

-- The option is `ssl-mode=disabled`.
abbrev pub is_disabling : Bytes → Bool
is_disabling option =
    iequals (codes "ssl-mode") (variable option) && iequals (codes "disabled") (value_of option)

abbrev pub some_disabling : List Bytes → Bool
some_disabling [] = false
some_disabling (option ∷ options) = is_disabling option || some_disabling options

-- What a step leaves does not have TLS disabled.
abbrev Stays : Result Code AuthData → Type 0
Stays (ok a) = is_off a.ssl_mode ≡ false
Stays (err c) = Unit

-- A step that does not touch the mode.
then-Stays {ℓ} :
    {A : Type ℓ} (r : Result Code A) (f : A → Result Code AuthData)
    → ((x : A) → Stays (f x))
    → Stays (r >>= f)
then-Stays (ok x) f h = h x
then-Stays (err c) f h = tt

-- An entry that disables TLS is not found under the text `v`.
abbrev AllOn : Bytes → List (Bytes × SslMode) → Type 0
AllOn v [] = Unit
AllOn v ((n, m) ∷ rest) = ((is_off m ≡ false) ⊎ (iequals n v ≡ false)) × AllOn v rest

abbrev FoundOn : Option SslMode → Type 0
FoundOn none = Unit
FoundOn (some m) = is_off m ≡ false

find_name-on : (v : Bytes) (t : List (Bytes × SslMode)) → AllOn v t → FoundOn (find_name v t)
find_name-on v [] h = tt
find_name-on v ((n, m) ∷ rest) (inl e, h) = elim (Bool-cases (iequals n v)) [
  | inl k ↦ rw k e
  | inr k ↦ rw k (find_name-on v rest h)
]
find_name-on v ((n, m) ∷ rest) (inr e, h) = rw e (find_name-on v rest h)

found-Stays :
    (c : Code) (o : Option SslMode) (a : AuthData)
    → FoundOn o
    → Stays (do mode ← found c o; ok (assign_ssl_mode mode a))
found-Stays c none a h = tt
found-Stays c (some m) a h = h

-- A setter that may be run: that of the mode only where the value does not disable TLS.
abbrev MayRun : Bytes → Setter → Type 0
MayRun v s = (s ≡ set_ssl_mode) → iequals (codes "disabled") v ≡ false

abbrev FoundMay : Bytes → Option Setter → Type 0
FoundMay v none = Unit
FoundMay v (some s) = MayRun v s

-- The setter of the mode stands under a name that is not `name`, or the value does not disable.
abbrev AllMay : Bytes → Bytes → List (Bytes × Setter) → Type 0
AllMay name v [] = Unit
AllMay name v ((n, s) ∷ rest) =
    ((s ≢ set_ssl_mode) ⊎ ((iequals n name && iequals (codes "disabled") v) ≡ false))
    × AllMay name v rest

second_false : (a b : Bool) → a ≡ true → (a && b) ≡ false → b ≡ false
second_false true b h e = e
second_false false b h e = ground arith

find_name-May :
    (name v : Bytes) (t : List (Bytes × Setter)) → AllMay name v t → FoundMay v (find_name name t)
find_name-May name v [] h = tt
find_name-May name v ((n, s) ∷ rest) (o, h) = elim (Bool-cases (iequals n name)) [
  | inl k ↦
      rw k
        (elim o [ inl ne ↦ λ e. absurd (ne e) | inr e ↦ λ x. second_false (iequals n name) _ k e ])
  | inr k ↦ rw k (find_name-May name v rest h)
]

option_to_info-May :
    (name v : Bytes)
    → (iequals (codes "ssl-mode") name && iequals (codes "disabled") v) ≡ false
    → AllMay name v option_to_info
option_to_info-May name v h = (
  inr h,
  (
    inl (λ e. cc),
    (
      inl (λ e. cc),
      (
        inl (λ e. cc),
        (
          inl (λ e. cc),
          (
            inl (λ e. cc),
            (
              inl (λ e. cc),
              (
                inl (λ e. cc),
                (
                  inl (λ e. cc),
                  (
                    inl (λ e. cc),
                    (
                      inl (λ e. cc),
                      (
                        inl (λ e. cc),
                        (inl (λ e. cc), (inl (λ e. cc), (inl (λ e. cc), (inl (λ e. cc), tt)))),
                      ),
                    ),
                  ),
                ),
              ),
            ),
          ),
        ),
      ),
    ),
  ),
)

keep-Stays :
    (b : Bool) (c : Code) (r : Result Code AuthData) → Stays r → Stays (if b then err c else r)
keep-Stays true c r h = tt
keep-Stays false c r h = h

keep_ok-Stays :
    (b : Bool) (c : Code) (r : Result Code AuthData) → Stays r → Stays (if b then r else err c)
keep_ok-Stays true c r h = h
keep_ok-Stays false c r h = tt

checked_timeout-Stays :
    (a : AuthData) (n : ℤ) → is_off a.ssl_mode ≡ false → Stays (checked_timeout a n)
checked_timeout-Stays a (pos n) h = h
checked_timeout-Stays a (negsuc n) h = tt

assign_auth_mechanism-Stays :
    (m : AuthMechanism) (a : AuthData)
    → is_off a.ssl_mode ≡ false
    → Stays (assign_auth_mechanism m a)
unfolding assign_auth_mechanism
assign_auth_mechanism-Stays m a h = ground arith

ensured-on : (mode : SslMode) → is_off mode ≡ false → is_off (ensured mode) ≡ false
ensured-on mode h = ground arith

final_mode-on : (mode : SslMode) → is_off mode ≡ false → is_off (final_mode mode) ≡ false
final_mode-on mode h = ground arith

or_false : (a b : Bool) → (a || b) ≡ false → (a ≡ false) × (b ≡ false)
or_false false b h = (refl, h)
or_false true b h = ground arith

module _ (tlsv13 : Bool) where
  apply-Stays :
      (s : Setter) (v : Bytes) (a : AuthData)
      → MayRun v s
      → is_off a.ssl_mode ≡ false
      → Stays (apply tlsv13 s v a)
  unfolding apply
  apply-Stays set_ssl_mode v a m h =
      found-Stays unknown_ssl_mode (find_name v mode_mapping) a
        (find_name-on v mode_mapping (inl refl, (inr (m refl), (inl refl, (inl refl, tt)))))
  apply-Stays set_auth_mechanism v a m h =
      then-Stays (parse_auth_mechanism v) (λ x. assign_auth_mechanism x a)
        (λ x. assign_auth_mechanism-Stays x a h)
  apply-Stays set_tls_versions v a m h =
      then-Stays (add_versions tlsv13 (parse_single_or_array v) a.tls_versions) (checked_versions a)
        (λ vs. keep-Stays (is_empty vs) unknown_tls_version (ok (record a { tls_versions = vs })) h)
  apply-Stays set_connect_timeout v a m h =
      then-Stays (found invalid_argument (to_int v)) (checked_timeout a)
        (λ n. checked_timeout-Stays a n h)
  apply-Stays set_compression v a m h =
      then-Stays (parse_compression_policy v) (λ n. ok (record a { compression_policy = n }))
        (λ n. h)
  apply-Stays set_compression_algorithms v a m h =
      let names = parse_single_or_array v in
      keep_ok-Stays (all_algorithm_names names) compression_invalid_algorithm_name
        (ok (record a { compression_algorithms = some names })) h
  apply-Stays set_ssl_no_defaults v a m h = h
  apply-Stays set_ssl_client_key v a m h = h
  apply-Stays set_ssl_client_cert v a m h = h
  apply-Stays set_ssl_cafile v a m h = h
  apply-Stays set_ssl_capath v a m h = h
  apply-Stays set_ssl_ciphers v a m h = h
  apply-Stays set_tls_ciphersuites v a m h = h

  ensure-Stays :
      (b : Bool) (r : Result Code AuthData) → Stays r → Stays (do a ← r; ok (ensure_ssl_mode b a))
  ensure-Stays b (err c) h = tt
  ensure-Stays true (ok a) h = ensured-on a.ssl_mode h
  ensure-Stays false (ok a) h = h

  run_setter-Stays :
      (s : Setter) (v : Bytes) (a : AuthData)
      → MayRun v s
      → is_off a.ssl_mode ≡ false
      → Stays (run_setter tlsv13 s v a)
  run_setter-Stays s v a m h =
      keep-Stays (requires_value s && is_empty v) invalid_argument _
        (ensure-Stays (is_secure s) (apply tlsv13 s v a) (apply-Stays s v a m h))

  found_setter-Stays :
      (v : Bytes) (a : AuthData) (o : Option Setter)
      → FoundMay v o
      → is_off a.ssl_mode ≡ false
      → Stays (do s ← found unknown_client_conn_option o; run_setter tlsv13 s v a)
  found_setter-Stays v a none m h = tt
  found_setter-Stays v a (some s) m h = run_setter-Stays s v a m h

  extract_client_option-Stays :
      (name v : Bytes) (a : AuthData)
      → (iequals (codes "ssl-mode") name && iequals (codes "disabled") v) ≡ false
      → is_off a.ssl_mode ≡ false
      → Stays (extract_client_option tlsv13 name v a)
  unfolding extract_client_option
  extract_client_option-Stays name v a m h =
      found_setter-Stays v a (find_name name option_to_info)
        (find_name-May name v option_to_info (option_to_info-May name v m)) h

  -- The same for the loop, which may also return no data.
  abbrev StaysOn : Result Code (Option AuthData) → Type 0
  StaysOn (ok (some a)) = is_off a.ssl_mode ≡ false
  StaysOn r = Unit

  if-StaysOn :
      (b : Bool) (r q : Result Code (Option AuthData))
      → StaysOn r
      → StaysOn q
      → StaysOn (if b then r else q)
  if-StaysOn true r q h k = h
  if-StaysOn false r q h k = k

  next-StaysOn :
      (options : List Bytes) (r : Result Code AuthData)
      → Stays r
      → ((a : AuthData) → is_off a.ssl_mode ≡ false → StaysOn (extract_options tlsv13 options a))
      → StaysOn (do b ← r; extract_options tlsv13 options b)
  next-StaysOn options (ok a) h k = k a h
  next-StaysOn options (err c) h k = tt

  extract_options-StaysOn :
      (options : List Bytes) (a : AuthData)
      → some_disabling options ≡ false
      → is_off a.ssl_mode ≡ false
      → StaysOn (extract_options tlsv13 options a)
  unfolding extract_options
  extract_options-StaysOn [] a m h = h
  extract_options-StaysOn (option ∷ options) a m h =
      let one = or_false (is_disabling option) (some_disabling options) m in
      if-StaysOn (is_empty option || is_empty (variable option)) _ _ tt (
        if-StaysOn (iequals (variable option) (codes "connection-attributes")) _ _
          (extract_options-StaysOn options a one.1 h)
          (next-StaysOn options _
            (extract_client_option-Stays (variable option) (value_of option) a one.0 h)
            (λ b k. extract_options-StaysOn options b one.1 k)))

  finished-StaysOn :
      (r : Result Code (Option AuthData)) → StaysOn r → StaysOn (do a ← r; ok (finished a))
  finished-StaysOn (err c) h = tt
  finished-StaysOn (ok none) h = tt
  finished-StaysOn (ok (some a)) h = final_mode-on a.ssl_mode h

  StaysOn-ok :
      (r : Result Code (Option AuthData)) (a : AuthData)
      → r ≡ ok (some a)
      → StaysOn r
      → is_off a.ssl_mode ≡ false
  StaysOn-ok r a e h = subst StaysOn e h

  -- TLS is disabled only by the option `ssl-mode=disabled`, in whatever case: the options of a
  -- query without it leave a mode that is not `disabled`.
  pub extract_query-ssl_mode :
      (query : Bytes) (a : AuthData)
      → some_disabling (single_separator_split b'&' query) ≡ false
      → extract_query tlsv13 query ≡ ok (some a)
      → is_off a.ssl_mode ≡ false
  unfolding extract_query
  extract_query-ssl_mode query a m e = StaysOn-ok _ a e (
      finished-StaysOn _
        (extract_options-StaysOn (single_separator_split b'&' query) initial m refl))
