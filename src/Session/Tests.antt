-- ===== src/Session/Tests.antt =====
-- Runs of the close and reset operations, and the theorems at concrete sessions.
use pecl_database_mysql_xdev.Common.{◌≡◌, ◌≢◌, refl, ◌↔◌, true, false, [], ◌∷◌, none, some, pass}
use pecl_database_mysql_xdev.Session.{
  Stats, Session, State, CloseReason, closed, send_close, reset, ready, non_authenticated, returned,
  explicit, server_shutdown, expect_open, expect_close, sess_close, con_close, stream_closed,
  is_closed, connection_closed_server_shutdown, is_session_properly_supported,
}
use pecl_database_mysql_xdev.Session.Lifecycle.{
  Closes, send_close-Closes, closes, resets, run, run-closed,
}
use pecl_database_mysql_xdev.Session.Reset.{reset-state}

abbrev in_state : State → Session
in_state s = record {
  session_state = record { state = s; close_reason = CloseReason.none };
  properly_supported = none;
  pooled = false;
  persistent = true;
  stream_open = true;
  sent = [];
}

abbrev three : Stats
three = record { opened_connections = 3; opened_persistent_connections = 3 }

close_ready :
    (send_close true explicit (in_state ready)).0.sent
    ≡ expect_open ∷ expect_close ∷ sess_close ∷ con_close ∷ stream_closed ∷ []
unfolding send_close
close_ready = refl

close_unauthenticated :
    (send_close true explicit (in_state non_authenticated)).0.sent ≡ con_close ∷ stream_closed ∷ []
unfolding send_close
close_unauthenticated = refl

shutdown_raises :
    (send_close true server_shutdown (in_state ready)).1 ≡ some connection_closed_server_shutdown
unfolding send_close
shutdown_raises = refl

send_close-Closes_example :
    let r = send_close true server_shutdown (in_state ready) in
    Closes false server_shutdown (in_state ready) r.0 r.1
unfolding is_closed
send_close-Closes_example = send_close-Closes true server_shutdown (in_state ready)

run-closed_example :
    let c = in_state closed in
    let xs = closes true explicit ∷ resets true pass pass ∷ [] in
    ((run c xs).state ≡ closed) × ((run c xs).close_reason ≡ CloseReason.none)
run-closed_example =
    run-closed (closes true explicit ∷ resets true pass pass ∷ []) (in_state closed) refl

reset_old_server : (reset false pass pass (in_state ready)).1 ≡ returned pass
unfolding reset
reset_old_server = refl

reset-state_example :
    let d = (reset false pass pass (in_state ready)).0 in
    let kept = (is_session_properly_supported false (in_state ready)).1 in
    (d.close_reason ≡ CloseReason.none)
    × ((d.state ≡ ready) ↔ ((ready ≡ ready) × (kept ≡ true)))
    × (d.state ≢ ready → d.state ≡ non_authenticated)
    × ((kept ≡ false) → (d.state ≡ non_authenticated) × (pass ≡ pass))
reset-state_example = reset-state false pass pass (in_state ready) reset_old_server
