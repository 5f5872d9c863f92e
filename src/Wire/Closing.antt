-- ===== src/Wire/Closing.antt =====
-- A warning that announces the end of the session: process_server_notifications and
-- xmysqlnd_inspect_warning of xmysqlnd/xmysqlnd_wireprotocol.cc, with on_io_read_error,
-- on_server_shutdown and on_session_was_killed of xmysqlnd/xmysqlnd_session.cc.
use pecl_database_mysql_xdev.Common.{
  ℕ, ◌≡◌, ◌≢◌, refl, ap, ◌∙◌, Bool, List, [], ◌∷◌, ◌++◌, Option, none, some, arith,
}
use pecl_database_mysql_xdev.Fields.{Library}
use pecl_database_mysql_xdev.Session.{
  Session, CloseReason, Code, closed, io_read_error, server_shutdown, session_was_killed,
  connection_closed_io_read_error, connection_closed_server_shutdown,
  connection_closed_session_was_killed, send_close,
}
use pecl_database_mysql_xdev.Wire.{
  HndStatus, thrown, Warning, notice, warning, Frame, plain, Handlers, process_received_message,
  receive_message,
}
use pecl_database_mysql_xdev.Wire.Notices.{
  Log, Entry, entry_of, process_server_notifications, inspect_notice_frame, warned,
}
use pecl_database_mysql_xdev.Wire.ResultSets.{SetState, Reader, Callbacks, stmt_execute_handlers}
use pecl_database_mysql_xdev.Wire.Batches.{receive_last, ended}
use pecl_database_mysql_xdev.Wire.Passing.{GoesOn, stays, goes, goes_on}
use pecl_database_mysql_xdev.Wire.Row.{reader}
use pecl_database_mysql_xdev.Wire.Reading.{handlers}

-- The codes by which a server announces the end of the session, with the reason and the exception.
pub data Announces : ℕ → CloseReason → Code → Type 0 where
  io_error : Announces 1810 io_read_error connection_closed_io_read_error
  shutdown : Announces 1053 server_shutdown connection_closed_server_shutdown
  killed : Announces 3169 session_was_killed connection_closed_session_was_killed

-- What an announcement makes of a session that is not closed.
abbrev pub Ended : Bool → ℕ → CloseReason → Code → Session → Type 0
Ended knows n reason code session =
    (d : Session) × (process_server_notifications knows n session ≡ (d, some code))
    × (d.state ≡ closed)
    × (d.close_reason ≡ reason)

notification-Ended :
    (knows : Bool) (n : ℕ) (reason : CloseReason) (code : Code) (session : Session)
    → Announces n reason code
    → session.state ≢ closed
    → Ended knows n reason code session
unfolding process_server_notifications send_close
notification-Ended knows _ _ _ session io_error open_ =
    ((send_close knows io_read_error session).0, ground arith, ground arith, ground arith)
notification-Ended knows _ _ _ session shutdown open_ =
    ((send_close knows server_shutdown session).0, ground arith, ground arith, ground arith)
notification-Ended knows _ _ _ session killed open_ =
    ((send_close knows session_was_killed session).0, ground arith, ground arith, ground arith)

notification-closed :
    (knows : Bool) (n : ℕ) (session : Session)
    → session.state ≡ closed
    → process_server_notifications knows n session ≡ (session, none)
unfolding process_server_notifications send_close
notification-closed knows n session h = ground arith

GoesOn-receives :
    {S : Type 0} (h : Handlers S) (fs rest : List Frame) (s t : S)
    → GoesOn h s fs t
    → receive_message h (fs ++ rest) s ≡ receive_message h rest t
GoesOn-receives h _ rest s _ stays = refl
GoesOn-receives h _ rest s t (goes {t = u} {f = f} {fs = fs} e later) =
    goes_on h f (fs ++ rest) s u e ∙ GoesOn-receives h fs rest u t later

module _ (lib : Library) (cb : Callbacks) where
  -- A warning of a code, with the handler of the caller.
  warning-received :
      (w : Warning) (n : ℕ) (f : Entry → HndStatus) (s : SetState) (log : Log)
      → cb.on_warning ≡ some f
      → w.code ≡ some n
      → process_received_message (handlers lib cb) (notice (warning w)) (reader s log) ≡ (
          let told =
            warned f
              (entry_of w)
              log
              (process_server_notifications cb.knows_keep_open n log.session) in
          (reader s told.0, told.1))
  unfolding process_received_message stmt_execute_handlers inspect_notice_frame
      process_server_notifications
  warning-received w n f s log handled coded = rw (handled, coded) refl

  -- Where a statement that has a handler for warnings is read and, after any frames by which the
  -- reading goes on, the server announces that the session ends (by the code 1810, 1053 or 3169): if
  -- the session is not closed yet, the exception of that code leaves the call before the handler
  -- sees the warning, and the session is closed for that reason; if it is closed already, the warning
  -- is handed to the handler and kept, and the session stays as it is.
  pub receive_message-closes :
      (fs rest : List Frame) (first : Reader) (s : SetState) (log : Log) (w : Warning) (n : ℕ)
      (reason : CloseReason) (code : Code) (f : Entry → HndStatus)
      → GoesOn (handlers lib cb) first fs (reader s log)
      → cb.on_warning ≡ some f
      → w.code ≡ some n
      → Announces n reason code
      → (log.session.state ≢ closed
          → (d : Session) × (receive_message
                (handlers lib cb)
                (fs ++ plain (notice (warning w)) ∷ rest)
                first
              ≡ (thrown code, reader s (record log { session = d }), rest))
            × (d.state ≡ closed)
            × (d.close_reason ≡ reason))
        × (log.session.state ≡ closed
            → receive_message (handlers lib cb) (fs ++ plain (notice (warning w)) ∷ rest) first
              ≡ ended (handlers lib cb) rest (
                reader s (record log { warnings = log.warnings ++ entry_of w ∷ [] }),
                f (entry_of w),
              ))
  receive_message-closes fs rest first s log w n reason code f before handled coded a =
      let packet = notice (warning w) in
      let told = warning-received w n f s log handled coded in
      let h = handlers lib cb in
      let start = GoesOn-receives h fs (plain packet ∷ rest) first (reader s log) before in
      let whole = start ∙ receive_last h packet rest (reader s log) _ told in
      let kept = λ (t : Session × Option Code).
        let r = warned f (entry_of w) log t in ended h rest (reader s r.0, r.1) in
      (
        (λ open_.
            let over = notification-Ended cb.knows_keep_open n reason code log.session a open_ in
            (over.0, whole ∙ ap kept over.1, over.2, over.3)),
        (λ shut. whole ∙ ap kept (notification-closed cb.knows_keep_open n log.session shut)),
      )
