-- ===== src/Session.antt =====
-- xmysqlnd/xmysqlnd_session.cc: closing and resetting a session.
-- What the peer answers is an argument: whether it knows the expectation "6.1" (`knows_keep_open`),
-- how it answers a reset (`answer`) and the second authentication (`reauthenticated`). The answers
-- to the two close messages are read and dropped, as in the code.
mod Defs
unfoldable pub use Defs.{value, code_of, get_close_exception_code, is_error, has_closed_with_error}
unfoldable pub use Defs.{is_closed, set, set_closed}
pub use Defs.{State, CloseReason, SessionState, Code, initial}
pub use Defs.{allocated, connecting, non_authenticated, ready, close_sent, closed}
pub use Defs.{explicit, implicit, disconnect, io_read_error, server_shutdown, session_was_killed}
pub use Defs.{session_closed, connection_closed_io_read_error, connection_closed_server_shutdown}
pub use Defs.{connection_closed_session_was_killed, connection_failure, session_reset_failure}
pub mod Lifecycle
pub mod Reset
pub mod Tests
use pecl_database_mysql_xdev.Common.{
  ℕ, ◌+◌, ◌-◌, ◌%◌, ◌^◌, Bool, true, false, not, ◌&&◌, leb, if◌then◌else◌, List, [], ◌∷◌, ◌++◌,
  Option, none, some, Status, pass, fail,
}

-- What a session sends while it is closed or reset; the last one closes the stream.
pub data Message : Type 0 where
  expect_open expect_close sess_reset sess_close con_close stream_closed : Message

-- The part of `xmysqlnd_session` and `xmysqlnd_session_data` that these operations touch. `sent`
-- is what went out, oldest first.
pub record Session : Type 0 where
  pub session_state : SessionState
  pub open session_state use *
  pub properly_supported : Option Bool
  pub pooled : Bool
  pub persistent : Bool
  pub stream_open : Bool
  pub sent : List Message

-- The global statistics that closing counts, unsigned and 64 bits wide.
pub record Stats : Type 0 where
  pub opened_connections : ℕ
  pub opened_persistent_connections : ℕ

abbrev send : Message → Session → Session
send m c = record c { sent = c.sent ++ m ∷ [] }

-- `XMYSQLND_DEC_GLOBAL_STATISTIC`.
abbrev decrement : ℕ → ℕ
decrement n = (n + 2 ^ 64 - 1) % 2 ^ 64

-- The answer is kept in the session.
ask_supported : Bool → Option Bool → Session → Session × Bool
ask_supported knows_keep_open (some b) c = (c, b)
ask_supported knows_keep_open none c =
    let asked = send expect_close (send expect_open c) in
    (record asked { properly_supported = some knows_keep_open }, knows_keep_open)

-- The server is asked once.
unfoldable pub is_session_properly_supported : Bool → Session → Session × Bool
unfolding ask_supported
is_session_properly_supported knows_keep_open c =
    ask_supported knows_keep_open c.properly_supported c

-- The statistics at the head of `send_close`.
unfoldable pub count_closing : Session → Stats → Stats
unfolding value
count_closing c stats =
    if leb (value non_authenticated) (value c.state)
    then record {
      opened_connections = decrement stats.opened_connections;
      opened_persistent_connections =
          if c.persistent
          then decrement stats.opened_persistent_connections
          else stats.opened_persistent_connections;
    }
    else stats

-- `state.set_closed(reason)`, and the exception if the reason is an error.
finish_close : CloseReason → Session → Session × Option Code
unfolding set_closed has_closed_with_error get_close_exception_code
finish_close reason c =
    let closed_state = set_closed reason c.session_state in
    (
      record c { session_state = closed_state },
      if has_closed_with_error closed_state
          then some (get_close_exception_code closed_state)
          else none,
    )

-- `SESS_CLOSE` goes to a server that keeps sessions open over a reset, and only when ready.
say_goodbye : Bool → State → Session → Session
unfolding is_session_properly_supported
say_goodbye knows_keep_open ready c =
    let (asked, supported) = is_session_properly_supported knows_keep_open c in
    if supported then send sess_close asked else asked
say_goodbye knows_keep_open _ c = c

-- `vio->data->m.close_stream`.
abbrev close_stream : Session → Session
close_stream c = record (send stream_closed c) { stream_open = false }

close_connection : Session → Session
close_connection c =
    let said = send con_close c in if said.stream_open then close_stream said else said

-- The switch of `send_close`.
close_in : State → Bool → CloseReason → Session → Session × Option Code
unfolding finish_close say_goodbye close_connection
close_in non_authenticated knows reason c =
    finish_close reason (close_connection (say_goodbye knows non_authenticated c))
close_in ready knows reason c = finish_close reason (close_connection (say_goodbye knows ready c))
close_in closed knows reason c = (c, none)
close_in _ knows reason c = finish_close reason (close_stream c)

unfoldable pub send_close : Bool → CloseReason → Session → Session × Option Code
unfolding close_in
send_close knows_keep_open reason c = close_in c.state knows_keep_open reason c

-- The same with the statistics at its head.
unfoldable pub send_close_counted :
    Bool → CloseReason → Session × Stats → (Session × Stats) × Option Code
unfolding send_close count_closing
send_close_counted knows_keep_open reason (c, stats) =
    let (d, raised) = send_close knows_keep_open reason c in ((d, count_closing c stats), raised)

-- Outcome of a call that may throw: the session is changed in both cases.
pub data Outcome : Type 0 where
  returned : Status → Outcome
  thrown : Code → Outcome

-- `session_still_opened` decides the state after the exchange.
after_reset : State → Bool → State
after_reset ready true = ready
after_reset _ keep_open = non_authenticated

exchange_reset : State → Bool → Status → Session → Session × Outcome
unfolding set after_reset
exchange_reset st keep_open pass c =
    let next = set (after_reset st keep_open) c.session_state in
    (record (send sess_reset c) { session_state = next }, returned pass)
exchange_reset st keep_open fail c = (send sess_reset c, thrown session_reset_failure)

-- The switch of `send_reset`.
reset_in : State → Bool → Status → Session → Session × Outcome
unfolding exchange_reset get_close_exception_code
reset_in allocated keep_open answer c = (c, thrown connection_failure)
reset_in connecting keep_open answer c = (c, thrown connection_failure)
reset_in closed keep_open answer c = (c, thrown (get_close_exception_code c.session_state))
reset_in st keep_open answer c = exchange_reset st keep_open answer c

unfoldable pub send_reset : Bool → Status → Session → Session × Outcome
unfolding reset_in
send_reset keep_open answer c = reset_in c.state keep_open answer c

-- `xmysqlnd_session::reset`: a server that drops the session is asked to authenticate again.
reauthenticate : Bool → Status → Session × Outcome → Session × Outcome
reauthenticate false reauthenticated (c, returned pass) = (c, returned reauthenticated)
reauthenticate keep reauthenticated r = r

unfoldable pub reset : Bool → Status → Status → Session → Session × Outcome
unfolding is_session_properly_supported reauthenticate send_reset
reset knows_keep_open answer reauthenticated c =
    let (asked, keep) = is_session_properly_supported knows_keep_open c in
    reauthenticate keep reauthenticated (send_reset keep answer asked)
