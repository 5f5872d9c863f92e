-- ===== src/Wire/ClosingTests.antt =====
-- Runs of a statement whose server announces that the session ends.
use pecl_database_mysql_xdev.Common.{
  ◌≡◌, ◌≢◌, refl, true, false, List, [], ◌∷◌, ◌++◌, none, some, codes,
}
use pecl_database_mysql_xdev.Fields.Base128.{library}
use pecl_database_mysql_xdev.Fields.Types.{FieldMeta, bytes}
use pecl_database_mysql_xdev.Session.{
  Session, CloseReason, ready, closed, connection_closed_server_shutdown, send_close,
}
use pecl_database_mysql_xdev.Wire.{
  HndStatus, hnd_again, thrown, Warning, notice, warning, column_metadata, Frame, plain,
  process_frame, process_received_message, process_batch, receive_message,
}
use pecl_database_mysql_xdev.Wire.Notices.{
  Entry, no_log, entry_of, process_server_notifications, inspect_notice_frame,
}
use pecl_database_mysql_xdev.Wire.ResultSets.{init_read, Reader, Callbacks, stmt_execute_handlers}
use pecl_database_mysql_xdev.Wire.Batches.{ended}
use pecl_database_mysql_xdev.Wire.Passing.{GoesOn, stays, goes}
use pecl_database_mysql_xdev.Wire.Row.{reader}
use pecl_database_mysql_xdev.Wire.Reading.{handlers, with_column}
use pecl_database_mysql_xdev.Wire.Closing.{shutdown, receive_message-closes}

abbrev keeps : Entry → HndStatus
keeps e = hnd_again

abbrev listening : Callbacks
listening = record { on_warning = some keeps; on_error = none; knows_keep_open = true }

abbrev session : Session
session = record {
  session_state = record { state = ready; close_reason = CloseReason.none };
  properly_supported = none;
  pooled = false;
  persistent = true;
  stream_open = true;
  sent = [];
}

abbrev of_type_bytes : FieldMeta
of_type_bytes = record { type = bytes; fractional_digits = 0; content_type = none }

abbrev shut_down : Warning
shut_down = record { level = none; code = some 1053; msg = some (codes "Server shutdown") }

abbrev frames : List Frame
frames = plain (column_metadata of_type_bytes) ∷ []

abbrev started : Reader
started = reader (with_column library listening (init_read 0) of_type_bytes) (no_log session)

closed_run :
    (receive_message
      (handlers library listening)
      (frames ++ plain (notice (warning shut_down)) ∷ [])
      (reader (init_read 0) (no_log session))).0
    ≡ thrown connection_closed_server_shutdown
unfolding receive_message process_batch process_received_message stmt_execute_handlers
    inspect_notice_frame process_server_notifications send_close
closed_run = refl

frames-GoesOn :
    GoesOn (handlers library listening) (reader (init_read 0) (no_log session)) frames started
unfolding process_received_message stmt_execute_handlers process_frame
frames-GoesOn =
    goes {s = reader (init_read 0) (no_log session)} {t = started}
      {f = plain (column_metadata of_type_bytes)} refl stays

receive_message-closes_example :
    (session.state ≢ closed
      → (d : Session) × (receive_message
            (handlers library listening)
            (frames ++ plain (notice (warning shut_down)) ∷ [])
            (reader (init_read 0) (no_log session))
          ≡ (
            thrown connection_closed_server_shutdown,
            record started { log = record (no_log session) { session = d } },
            [],
          ))
        × (d.state ≡ closed)
        × (d.close_reason ≡ CloseReason.server_shutdown))
    × (session.state ≡ closed
        → receive_message
            (handlers library listening)
            (frames ++ plain (notice (warning shut_down)) ∷ [])
            (reader (init_read 0) (no_log session))
          ≡ ended (handlers library listening) [] (
            record started { log = record (no_log session) { warnings = entry_of shut_down ∷ [] } },
            hnd_again,
          ))
receive_message-closes_example =
    receive_message-closes library listening frames [] (reader (init_read 0) (no_log session))
      (with_column library listening (init_read 0) of_type_bytes) (no_log session) shut_down 1053
      CloseReason.server_shutdown connection_closed_server_shutdown keeps frames-GoesOn refl refl
      shutdown
