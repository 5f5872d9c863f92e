-- ===== src/Wire/RequestTests.antt =====
-- Runs of auth_start and of the messages that an Ok answers.
use pecl_database_mysql_xdev.Common.{
  ◌≡◌, refl, Bool, true, false, List, [], ◌∷◌, ◌++◌, ◌↔◌, none, some, pass, fail, Bytes,
}
use pecl_database_mysql_xdev.Wire.{returned}
use pecl_database_mysql_xdev.Wire.{
  session_state_changed, rows_affected, client_id_assigned, ok_, capabilities, auth_continue,
  auth_ok, notice, fetch_done, error, Frame, plain, process_received_message, process_batch,
  receive_message,
}
use pecl_database_mysql_xdev.Wire.Requests.{
  Auth, new_request, ok_handlers, expectations_open_handlers, capabilities_get_handlers,
  ExpectResult, auth_start_handlers,
}
use pecl_database_mysql_xdev.Connect.Values.{array, no_fields}
use pecl_database_mysql_xdev.Wire.Login.{login, Exchange, Accepting, auth_start-passes}

abbrev new_login : Auth
new_login = record { client_id = none; sent = []; error_no = none }

-- A plugin that repeats the salt.
abbrev repeat_salt : Bytes → Bytes
repeat_salt salt = salt ++ salt

abbrev always : Bytes → Bool
always output = true

abbrev challenge_frames : List Frame
challenge_frames =
    plain (notice (session_state_changed (client_id_assigned 12)))
    ∷ plain (auth_continue (5 ∷ []))
    ∷ plain auth_ok
    ∷ plain ok_
    ∷ []

abbrev logged_in : Auth
logged_in = record { client_id = some 12; sent = (5 ∷ 5 ∷ []) ∷ []; error_no = none }

login_run :
    receive_message (login repeat_salt always false) challenge_frames new_login
    ≡ (returned pass, logged_in, plain ok_ ∷ [])
unfolding receive_message process_batch process_received_message auth_start_handlers
login_run = refl

refused_login_run :
    receive_message (login repeat_salt always false) (plain (error 1045) ∷ []) new_login
    ≡ (returned fail, record new_login { error_no = some 1045 }, [])
unfolding receive_message process_batch process_received_message auth_start_handlers
refused_login_run = refl

-- A message that is none of an authentication passes for its success.
unexpected_login_run :
    receive_message (login repeat_salt always false) (plain fetch_done ∷ []) new_login
    ≡ (returned pass, new_login, [])
unfolding receive_message process_batch process_received_message auth_start_handlers
unexpected_login_run = refl

ok_run :
    receive_message ok_handlers
      (plain (notice (session_state_changed (rows_affected 1))) ∷ plain ok_ ∷ [])
      new_request
    ≡ (returned pass, new_request, [])
unfolding receive_message process_batch process_received_message ok_handlers
ok_run = refl

expectations_run :
    receive_message expectations_open_handlers (plain (error 5160) ∷ []) new_request
    ≡ (returned fail, record new_request { result = ExpectResult.error; error_no = some 5160 }, [])
unfolding receive_message process_batch process_received_message expectations_open_handlers
expectations_run = refl

capabilities_run :
    receive_message capabilities_get_handlers
      (plain (capabilities (array no_fields)) ∷ [])
      new_request
    ≡ (returned pass, record new_request { capabilities = some (array no_fields) }, [])
unfolding receive_message process_batch process_received_message capabilities_get_handlers
capabilities_run = refl

auth_start-passes_example :
    (receive_message (login repeat_salt always false) challenge_frames new_login
      ≡ (returned pass, logged_in, plain ok_ ∷ []))
    ↔ ((fs : List Frame) × (f : Frame) × (challenge_frames ≡ fs ++ f ∷ plain ok_ ∷ [])
        × Exchange repeat_salt always false new_login fs logged_in
        × Accepting f)
auth_start-passes_example =
    auth_start-passes repeat_salt always false challenge_frames (plain ok_ ∷ []) new_login logged_in
