-- ===== src/Connect/Addresses/Failover.antt =====
-- The failover of connect_session, xmysqlnd/xmysqlnd_session.cc. What an address leads to is the
-- argument `attempt`: extract_uri_information, extract_connection_attributes,
-- extract_auth_information and establish_connection together.
use pecl_database_mysql_xdev.Common.{
  ℕ, ◌≡◌, ◌≢◌, refl, ltb, Bool, true, false, if◌then◌else◌, List, [], ◌∷◌, Option, none, some,
  length, ap, arith,
}
use pecl_database_mysql_xdev.Connect.Addresses.Scan.{Entry}

-- What trying one address leads to: the session is connected; establish_connection fails, with
-- an error number or 0; no auth can be made of the URL; or the call is left at once, with FAIL or
-- with an exception.
pub data Attempt : Type 0 where
  connected no_auth : Attempt
  failed_with : ℕ → Attempt
  aborted thrown : Attempt

-- How the call ends: PASS, FAIL, FAIL with all_routers_failed raised, the exception of the last
-- error, or an exception of the attempt.
pub data Ending : Type 0 where
  pass fail all_routers_failed thrown_out : Ending
  last_error : ℕ → Ending

-- The addresses that were tried, in order, and the ending.
pub record Connecting : Type 0 where
  pub tried : List Entry
  pub ending : Ending

abbrev pub none_left : Bool → ℕ → Ending
none_left true last = all_routers_failed
none_left false last = if ltb 0 last then last_error last else fail

module _ (attempt : Entry → Attempt) (many : Bool) where
  abbrev pub tried_first : Entry → Connecting → Connecting
  tried_first uri c = record { tried = uri ∷ c.tried; ending = c.ending }

  abbrev pub stop_at : Entry → Ending → Connecting
  stop_at uri e = record { tried = uri ∷ []; ending = e }

  -- The loop over the addresses; `last` is the error number of the last failure.
  unfoldable pub try_uris : ℕ → List Entry → Connecting
  try_uris last [] = record { tried = []; ending = none_left many last }
  try_uris last (uri ∷ uris) = elim (attempt uri) [
    | connected ↦ stop_at uri pass
    | no_auth ↦ tried_first uri (try_uris last uris)
    | failed_with n ↦ tried_first uri (try_uris n uris)
    | aborted ↦ stop_at uri fail
    | thrown ↦ stop_at uri thrown_out
  ]

unfoldable pub connect_session : (Entry → Attempt) → List Entry → Connecting
unfolding try_uris
connect_session attempt uris = try_uris attempt (ltb 1 (length uris)) 0 uris

-- The attempt lets the loop go on.
abbrev pub goes_on : Attempt → Bool
goes_on no_auth = true
goes_on (failed_with n) = true
goes_on a = false

-- The addresses up to the first that does not let the loop go on, that one included.
abbrev pub up_to : (Entry → Attempt) → List Entry → List Entry
up_to attempt [] = []
up_to attempt (uri ∷ uris) = if goes_on (attempt uri) then uri ∷ up_to attempt uris else uri ∷ []

-- What the first such address leads to.
abbrev pub first_stop : (Entry → Attempt) → List Entry → Option Attempt
first_stop attempt [] = none
first_stop attempt (uri ∷ uris) =
    if goes_on (attempt uri) then first_stop attempt uris else some (attempt uri)

-- The ending that belongs to it.
abbrev pub EndsWith : Bool → Option Attempt → Ending → Type 0
EndsWith many (some connected) e = e ≡ pass
EndsWith many (some aborted) e = e ≡ fail
EndsWith many (some thrown) e = e ≡ thrown_out
EndsWith true o e = e ≡ all_routers_failed
EndsWith false o e = (e ≢ pass) × (e ≢ all_routers_failed)

round-EndsWith :
    (attempt : Entry → Attempt) (many : Bool) (last : ℕ) (uri : Entry) (uris : List Entry)
    → ((n : ℕ)
        → ((try_uris attempt many n uris).tried ≡ up_to attempt uris)
          × EndsWith many (first_stop attempt uris) (try_uris attempt many n uris).ending)
    → (a : Attempt)
    → let c : Connecting = elim a [
      | connected ↦ stop_at attempt many uri pass
      | no_auth ↦ tried_first attempt many uri (try_uris attempt many last uris)
      | failed_with n ↦ tried_first attempt many uri (try_uris attempt many n uris)
      | aborted ↦ stop_at attempt many uri fail
      | thrown ↦ stop_at attempt many uri thrown_out
    ] in
      (c.tried ≡ (if goes_on a then uri ∷ up_to attempt uris else uri ∷ []))
      × EndsWith many (if goes_on a then first_stop attempt uris else some a) c.ending
round-EndsWith attempt many last uri uris ih connected = (refl, refl)
round-EndsWith attempt many last uri uris ih no_auth =
    (ap (λ (us : List Entry). uri ∷ us) (ih last).0, (ih last).1)
round-EndsWith attempt many last uri uris ih (failed_with n) =
    (ap (λ (us : List Entry). uri ∷ us) (ih n).0, (ih n).1)
round-EndsWith attempt many last uri uris ih aborted = (refl, refl)
round-EndsWith attempt many last uri uris ih thrown = (refl, refl)

try_uris-EndsWith :
    (attempt : Entry → Attempt) (many : Bool) (last : ℕ) (uris : List Entry)
    → ((try_uris attempt many last uris).tried ≡ up_to attempt uris)
      × EndsWith many (first_stop attempt uris) (try_uris attempt many last uris).ending
unfolding try_uris
try_uris-EndsWith attempt true last [] = (refl, refl)
try_uris-EndsWith attempt false last [] = ground arith
try_uris-EndsWith attempt many last (uri ∷ uris) =
    round-EndsWith attempt many last uri uris (λ n. try_uris-EndsWith attempt many n uris)
      (attempt uri)

-- The addresses are tried in order up to the first that connects, aborts or throws, and no
-- further. The call passes exactly where that one connects; where none of several addresses does
-- any of this, all_routers_failed is raised.
pub connect_session-EndsWith :
    (attempt : Entry → Attempt) (uris : List Entry)
    → ((connect_session attempt uris).tried ≡ up_to attempt uris)
      × EndsWith
          (ltb 1 (length uris))
          (first_stop attempt uris)
          (connect_session attempt uris).ending
unfolding connect_session
connect_session-EndsWith attempt uris = try_uris-EndsWith attempt (ltb 1 (length uris)) 0 uris
