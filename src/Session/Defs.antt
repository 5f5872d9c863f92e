-- ===== src/Session/Defs.antt =====
-- `st_xmysqlnd_session_state` of xmysqlnd/xmysqlnd_session.{h,cc}: where a session stands in its
-- life, and why it was closed.
use pecl_database_mysql_xdev.Common.{ℕ, Bool, true, false}

-- `enum xmysqlnd_session_state`.
pub data State : Type 0 where
  allocated connecting non_authenticated ready close_sent closed : State

-- The values of the enum, which the code compares.
unfoldable pub value : State → ℕ
value allocated = 0
value connecting = 1
value non_authenticated = 2
value ready = 3
value close_sent = 4
value closed = 5

-- `Session_close_reason`.
pub data CloseReason : Type 0 where
  none explicit implicit disconnect io_read_error server_shutdown session_was_killed : CloseReason

pub record SessionState : Type 0 where
  pub state : State
  pub close_reason : CloseReason

-- The codes of `util::xdevapi_exception` that closing and resetting a session raise.
pub data Code : Type 0 where
  session_closed connection_closed_io_read_error connection_closed_server_shutdown : Code
  connection_closed_session_was_killed connection_failure session_reset_failure : Code

-- The map `reason_to_code`, whose default is `session_closed`.
unfoldable pub code_of : CloseReason → Code
code_of io_read_error = connection_closed_io_read_error
code_of server_shutdown = connection_closed_server_shutdown
code_of session_was_killed = connection_closed_session_was_killed
code_of _ = session_closed

unfoldable pub get_close_exception_code : SessionState → Code
unfolding code_of
get_close_exception_code s = code_of s.close_reason

unfoldable pub is_error : CloseReason → Bool
is_error io_read_error = true
is_error server_shutdown = true
is_error session_was_killed = true
is_error _ = false

unfoldable pub has_closed_with_error : SessionState → Bool
unfolding is_error
has_closed_with_error s = is_error s.close_reason

unfoldable pub is_closed : SessionState → Bool
is_closed s = elim s.state [ closed ↦ true | _ ↦ false ]

-- `set`: never called with `closed`.
unfoldable pub set : State → SessionState → SessionState
set new_state s = record { state = new_state; close_reason = none }

unfoldable pub set_closed : CloseReason → SessionState → SessionState
set_closed reason s = record { state = closed; close_reason = reason }

-- The constructor.
abbrev pub initial : SessionState
initial = record { state = allocated; close_reason = none }
