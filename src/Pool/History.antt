-- ===== src/Pool/History.antt =====
-- Histories of calls on the pool of mysqlx_client.cc, from its construction.
use pecl_database_mysql_xdev.Common.{ℕ, Bool, List, [], ◌∷◌}
use pecl_database_mysql_xdev.Session.{Session, CloseReason, send_close}
use pecl_database_mysql_xdev.Pool.{
  World, Options, Answers, create, update, get_connection, wake, close_connection,
  prune_expired_connections, close,
}

-- A call by a user, by a thread that waits, or by the timer; `dies` is a session that fails in
-- the hands of its user.
pub data Call : Type 0 where
  gets : Answers → Call
  wakes : Bool → Answers → Call
  releases : Bool → ℕ → ℕ → Call
  dies : Bool → CloseReason → ℕ → Call
  prunes : Bool → ℕ → Call
  closes : Bool → Call

unfoldable pub step : World → Call → World
step w (gets a) = (get_connection a w).0
step w (wakes timed_out a) = (wake timed_out a w).0
step w (releases knows now h) = close_connection knows now h w
step w (dies knows reason h) = record w {
  session_at = update w.session_at h (send_close knows reason (w.session_at h)).0;
}
step w (prunes knows now) = prune_expired_connections knows now w
step w (closes knows) = close knows w

unfoldable pub run : World → List Call → World
run w [] = w
run w (x ∷ xs) = run (step w x) xs

abbrev pub start : Options → (ℕ → Session) → ℕ → World
start o sessions n = record { pool = create o; session_at = sessions; next_handle = n }
