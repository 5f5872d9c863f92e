-- ===== src/Wire/Notices.antt =====
-- Notices: xmysqlnd_inspect_notice_frame and what it calls, of
-- xmysqlnd/xmysqlnd_wireprotocol.cc, with the handlers that a statement binds to them
-- (handler_on_warning, handler_on_exec_state_change and handler_on_generated_doc_ids of
-- xmysqlnd/xmysqlnd_stmt.cc).
use pecl_database_mysql_xdev.Common.{
  ℕ, ◌==◌, if◌then◌else◌, Bool, List, [], ◌∷◌, ◌++◌, Option, none, some, Bytes,
}
use pecl_database_mysql_xdev.Session.{
  Session, CloseReason, Code, io_read_error, server_shutdown, session_was_killed, send_close,
}
use pecl_database_mysql_xdev.Wire.{
  HndStatus, hnd_again, throws, Warning, StateChange, generated_insert_id, rows_affected,
  rows_found, rows_matched, generated_document_ids, trx_committed, trx_rolledback,
  client_id_assigned, unread, Notice, warning, session_variable_changed, session_state_changed,
  ignored,
}

-- An entry of the warning list.
pub record Entry : Type 0 where
  pub level : ℕ
  pub code : ℕ
  pub message : Bytes

-- The execution state of the statement, its warnings, and the session, which a warning may close.
pub record Log : Type 0 where
  pub last_insert_id : ℕ
  pub affected_items : ℕ
  pub found_items : ℕ
  pub matched_items : ℕ
  pub generated_doc_ids : List Bytes
  pub warnings : List Entry
  pub session : Session

abbrev pub no_log : Session → Log
no_log session = record {
  last_insert_id = 0;
  affected_items = 0;
  found_items = 0;
  matched_items = 0;
  generated_doc_ids = [];
  warnings = [];
  session = session;
}

-- Why the session is closed at a warning: the codes 1810, 1053 and 3169.
abbrev pub close_reason_of : ℕ → Option CloseReason
close_reason_of code =
    if code == 1810
    then some io_read_error
    else if code == 1053
    then some server_shutdown
    else if code == 3169
    then some session_was_killed
    else none

-- on_io_read_error, on_server_shutdown and on_session_was_killed of the session: `send_close` with
-- the reason. What closing reads is not taken off the frames of the statement.
abbrev pub on_event : Bool → Option CloseReason → Session → Session × Option Code
on_event knows none session = (session, none)
on_event knows (some reason) session = send_close knows reason session

unfoldable pub process_server_notifications : Bool → ℕ → Session → Session × Option Code
process_server_notifications knows code session = on_event knows (close_reason_of code) session

abbrev pub get_or {ℓ} : {A : Type ℓ} → Option A → A → A
get_or none a = a
get_or (some b) a = b

-- XSTMT_WARN_WARNING is 2; a warning without a code has 1000.
abbrev pub entry_of : Warning → Entry
entry_of w = record {
  level = get_or w.level 2;
  code = get_or w.code 1000;
  message = get_or w.msg [];
}

-- `xmysqlnd_inspect_changed_state` with the handlers of a statement; no client id is asked for.
abbrev pub inspect_changed_state : StateChange → Log → Log
inspect_changed_state (generated_insert_id n) log = record log { last_insert_id = n }
inspect_changed_state (rows_affected n) log = record log { affected_items = n }
inspect_changed_state (rows_found n) log = record log { found_items = n }
inspect_changed_state (rows_matched n) log = record log { matched_items = n }
inspect_changed_state (generated_document_ids ids) log = record log {
  generated_doc_ids = log.generated_doc_ids ++ ids;
}
inspect_changed_state trx_committed log = log
inspect_changed_state trx_rolledback log = log
inspect_changed_state (client_id_assigned n) log = log
inspect_changed_state unread log = log

-- The warning handler, once the session has been told; an exception of the session goes before it.
abbrev pub warned : (Entry → HndStatus) → Entry → Log → Session × Option Code → Log × HndStatus
warned f e log (session, some code) = (record log { session = session }, throws code)
warned f e log (session, none) =
    (record log { warnings = log.warnings ++ e ∷ []; session = session }, f e)

-- The warning handler of the caller, which gives a status, or none; and whether the server keeps
-- sessions open, which closing the session asks for.
module _ (on_warning : Option (Entry → HndStatus)) (knows_keep_open : Bool) where
  abbrev pub inspect_warning : Option (Entry → HndStatus) → Entry → Log → Log × HndStatus
  unfolding process_server_notifications
  inspect_warning none e log = (log, hnd_again)
  inspect_warning (some f) e log =
      warned f e log (process_server_notifications knows_keep_open e.code log.session)

  unfoldable pub inspect_notice_frame : Notice → Log → Log × HndStatus
  unfolding process_server_notifications
  inspect_notice_frame (warning w) log = inspect_warning on_warning (entry_of w) log
  inspect_notice_frame session_variable_changed log = (log, hnd_again)
  inspect_notice_frame (session_state_changed change) log =
      (inspect_changed_state change log, hnd_again)
  inspect_notice_frame ignored log = (log, hnd_again)
