-- ===== src/Wire/Requests.antt =====
-- The reads of the other messages of xmysqlnd/xmysqlnd_wireprotocol.cc: the ones that an Ok answers
-- (capabilities_set, sess_reset, sess_close, con_close, expectations_open, expectations_close,
-- collection_add, collection_ud, prepare_prepare, prepare_execute), capabilities_get and
-- auth_start, the last with the handlers of Authenticate (xmysqlnd/xmysqlnd_session.cc).
use pecl_database_mysql_xdev.Common.{
  ℕ, Bool, false, if◌then◌else◌, List, [], ◌∷◌, ◌++◌, Option, none, some, Bytes,
}
use pecl_database_mysql_xdev.Connect.Values.{Value}
use pecl_database_mysql_xdev.Wire.{
  HndStatus, hnd_pass, hnd_fail, hnd_pass_return_fail, hnd_again, StateChange, client_id_assigned,
  Notice, session_state_changed, Handlers,
}

-- What is left of a request: the code that `on_error` was given, the capabilities that were read,
-- and the result of expectations_open.
pub data ExpectResult : Type 0 where
  unknown ok_ error : ExpectResult

pub record Request : Type 0 where
  pub error_no : Option ℕ
  pub capabilities : Option Value
  pub result : ExpectResult

abbrev pub new_request : Request
new_request = record { error_no = none; capabilities = none; result = unknown }

-- No message is handled, the notices are passed over.
abbrev pub no_handlers : {S : Type 0} → Handlers S
no_handlers = record {
  on_ok = none;
  on_error = none;
  on_capabilities = none;
  on_auth_continue = none;
  on_auth_ok = none;
  on_notice = some (λ n s. (s, hnd_again));
  on_column_meta = none;
  on_rset_row = none;
  on_rset_fetch_done = none;
  on_rset_fetch_suspended = none;
  on_rset_fetch_done_more_rsets = none;
  on_stmt_execute_ok = none;
  on_rset_fetch_done_more_out_params = none;
  on_compressed = false;
  on_unexpected = none;
}

-- The handlers of a message that an Ok answers.
unfoldable pub ok_handlers : Handlers Request
ok_handlers = record no_handlers {
  on_ok = some (λ s. (s, hnd_pass));
  on_error = some (λ code s. (record s { error_no = some code }, hnd_pass_return_fail));
}

-- The tables of these messages.
abbrev pub capabilities_set_handlers : Handlers Request
unfolding ok_handlers
capabilities_set_handlers = ok_handlers

abbrev pub sess_reset_handlers : Handlers Request
unfolding ok_handlers
sess_reset_handlers = ok_handlers

abbrev pub sess_close_handlers : Handlers Request
unfolding ok_handlers
sess_close_handlers = ok_handlers

abbrev pub con_close_handlers : Handlers Request
unfolding ok_handlers
con_close_handlers = ok_handlers

abbrev pub expectations_close_handlers : Handlers Request
unfolding ok_handlers
expectations_close_handlers = ok_handlers

abbrev pub collection_add_handlers : Handlers Request
unfolding ok_handlers
collection_add_handlers = ok_handlers

abbrev pub collection_ud_handlers : Handlers Request
unfolding ok_handlers
collection_ud_handlers = ok_handlers

abbrev pub prepare_prepare_handlers : Handlers Request
unfolding ok_handlers
prepare_prepare_handlers = ok_handlers

abbrev pub prepare_execute_handlers : Handlers Request
unfolding ok_handlers
prepare_execute_handlers = ok_handlers

unfoldable pub expectations_open_handlers : Handlers Request
expectations_open_handlers = record no_handlers {
  on_ok = some (λ s. (record s { result = ok_ }, hnd_pass));
  on_error =
      some (λ code s. (record s { result = error; error_no = some code }, hnd_pass_return_fail));
}

unfoldable pub capabilities_get_handlers : Handlers Request
capabilities_get_handlers = record no_handlers {
  on_error = some (λ code s. (record s { error_no = some code }, hnd_pass_return_fail));
  on_capabilities = some (λ v s. (record s { capabilities = some v }, hnd_pass));
}

-- What auth_start leaves: the client id of the session, the data that were sent, the error that
-- the session was given.
pub record Auth : Type 0 where
  pub client_id : Option ℕ
  pub sent : List Bytes
  pub error_no : Option ℕ

-- The plugin's `prepare_continue_auth_data`, whether sending data succeeds, and whether errors are
-- muted, as they are where several mechanisms are tried.
module _ (prepare : Bytes → Bytes) (sends : Bytes → Bool) (muted : Bool) where
  abbrev pub send_reply : Bytes → Auth → Auth × HndStatus
  send_reply [] s = (s, hnd_again)
  send_reply (b ∷ output) s =
      if sends (b ∷ output)
      then (record s { sent = s.sent ++ (b ∷ output) ∷ [] }, hnd_again)
      else (s, hnd_fail)

  -- `auth_start_on_AUTHENTICATE_CONTINUE` with xmysqlnd_session_data_handler_on_auth_continue.
  abbrev pub on_authenticate_continue : Bytes → Auth → Auth × HndStatus
  on_authenticate_continue salt s = send_reply (prepare salt) s

  -- `xmysqlnd_inspect_changed_state` with xmysqlnd_session_data_set_client_id and no other handler.
  abbrev pub auth_state_changed : StateChange → Auth → Auth
  auth_state_changed (client_id_assigned id) s = record s { client_id = some id }
  auth_state_changed other s = s

  -- `auth_start_on_NOTICE`.
  abbrev pub auth_notice : Notice → Auth → Auth
  auth_notice (session_state_changed change) s = auth_state_changed change s
  auth_notice other s = s

  unfoldable pub auth_start_handlers : Handlers Auth
  auth_start_handlers = record no_handlers {
    on_error = some (λ code s.
        (record s { error_no = if muted then s.error_no else some code }, hnd_pass_return_fail));
    on_auth_continue = some on_authenticate_continue;
    on_auth_ok = some (λ s. (s, hnd_pass));
    on_notice = some (λ n s. (auth_notice n s, hnd_again));
  }
