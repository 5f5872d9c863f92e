-- ===== src/Session/Lifecycle.antt =====
-- A session is closed once, for the first reason given. This is send_close of
-- xmysqlnd/xmysqlnd_session.cc, and what the statistics count over two closes.
use pecl_database_mysql_xdev.Common.{
  ◌-◌, ◌≤◌, ◌<◌, ◌^◌, ◌≡◌, refl, ◌∙◌, Bool, true, List, [], ◌∷◌, Option, none, some, Status,
  if◌then◌else◌, arith,
}
use pecl_database_mysql_xdev.Session.{
  Session, CloseReason, Code, closed, is_closed, is_error, code_of, value, Stats,
  send_close_counted, send_close, reset, non_authenticated,
}

-- What one `send_close` makes of a session `c` that `was` closed already or not.
pub record Closes (was : Bool) (reason : CloseReason) (c d : Session) (raised : Option Code)
    : Type 0 where
  pub now_closed : d.state ≡ closed
  pub first_reason : d.close_reason ≡ (if was then c.close_reason else reason)
  pub raises :
      raised ≡ (if was then none else if is_error reason then some (code_of reason) else none)
  pub silent : was ≡ true → d.sent ≡ c.sent

-- From every state `send_close` leaves the session closed. If it was closed before, the reason
-- of that first close stays, nothing is sent and nothing is raised. Otherwise the given reason
-- is recorded, and its exception is raised exactly when the reason is an error.
pub send_close-Closes :
    (knows : Bool) (reason : CloseReason) (c : Session)
    → let r = send_close knows reason c in Closes (is_closed c.session_state) reason c r.0 r.1
unfolding send_close is_closed
send_close-Closes knows reason c = ground arith

pub data Call : Type 0 where
  closes : Bool → CloseReason → Call
  resets : Bool → Status → Status → Call

pub step : Session → Call → Session
step c (closes knows reason) = (send_close knows reason c).0
step c (resets knows answer reauthenticated) = (reset knows answer reauthenticated c).0

pub run : Session → List Call → Session
run c [] = c
run c (x ∷ xs) = run (step c x) xs

step-closed :
    (x : Call) (c : Session)
    → c.state ≡ closed
    → ((step c x).state ≡ closed) × ((step c x).close_reason ≡ c.close_reason)
unfolding step send_close reset
step-closed (closes knows reason) c h = ground arith
step-closed (resets knows answer reauthenticated) c h = ground arith

-- Over any further sequence of closes and resets, whatever the server answers, a closed session
-- stays closed and keeps the reason of its first close.
pub run-closed :
    (xs : List Call) (c : Session)
    → c.state ≡ closed
    → ((run c xs).state ≡ closed) × ((run c xs).close_reason ≡ c.close_reason)
unfolding run
run-closed [] c h = (h, refl)
run-closed (x ∷ xs) c h =
    let (h', e) = step-closed x c h in let (k, e') = run-closed xs (step c x) h' in (k, e' ∙ e)

-- A session that was connected is counted out of the open connections twice when its owner
-- closes it and its destructor closes it again: with at least two connections counted, the
-- counter falls by two.
send_close-counts_twice :
    (knows knows' : Bool) (reason reason' : CloseReason) (c : Session) (stats : Stats)
    → value non_authenticated ≤ value c.state
    → 2 ≤ stats.opened_connections
    → stats.opened_connections < 2 ^ 64
    → let once = (send_close_counted knows reason (c, stats)).0 in
      (send_close_counted knows' reason' once).0.1.opened_connections ≡ stats.opened_connections - 2
unfolding send_close_counted value
send_close-counts_twice knows knows' reason reason' c stats h two bound = ground arith
