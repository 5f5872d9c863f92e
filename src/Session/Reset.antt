-- ===== src/Session/Reset.antt =====
-- The states that a reset leaves behind: send_reset and reset of xmysqlnd/xmysqlnd_session.cc.
use pecl_database_mysql_xdev.Common.{
  ◌≡◌, Bool, true, false, Option, none, some, Status, pass, fail, arith, ◌↔◌, ◌≢◌,
}
use pecl_database_mysql_xdev.Session.{
  Session, State, CloseReason, Code, Outcome, closed, code_of, reset, ready, non_authenticated,
  returned, thrown, is_session_properly_supported, allocated, connecting, connection_failure,
  session_reset_failure,
}

-- A reset that returns success leaves the session ready exactly when it was ready and the
-- server keeps sessions open; in all other cases the state is "not authenticated", also after a
-- second authentication that succeeded. No close reason is left.
pub reset-state :
    (knows : Bool) (answer reauthenticated : Status) (c : Session)
    → (reset knows answer reauthenticated c).1 ≡ returned pass
    → let d = (reset knows answer reauthenticated c).0 in
      let kept = (is_session_properly_supported knows c).1 in
      (d.close_reason ≡ CloseReason.none)
      × ((d.state ≡ ready) ↔ ((c.state ≡ ready) × (kept ≡ true)))
      × (d.state ≢ ready → d.state ≡ non_authenticated)
      × ((kept ≡ false) → (d.state ≡ non_authenticated) × (reauthenticated ≡ pass))
unfolding reset is_session_properly_supported
reset-state knows answer reauthenticated c h =
    (ground arith, (ground arith, ground arith), ground arith, ground arith)

-- What a reset throws: on a session that never got a connection a connection failure, on a
-- closed one the code of its close reason, otherwise a reset failure when the server refuses.
-- Nothing of this changes the state of the session.
abbrev expected_error : State → Status → CloseReason → Option Code
expected_error allocated answer reason = some connection_failure
expected_error connecting answer reason = some connection_failure
expected_error closed answer reason = some (code_of reason)
expected_error _ fail reason = some session_reset_failure
expected_error _ pass reason = none

pub error_of : Outcome → Option Code
error_of (returned r) = none
error_of (thrown e) = some e

-- The exception of a reset is fixed by the state, the close reason and the answer of the server,
-- as `expected_error` lists them, and a reset that throws keeps the state and its reason.
reset-expected_error :
    (knows : Bool) (answer reauthenticated : Status) (c : Session)
    → let r = reset knows answer reauthenticated c in
      (error_of r.1 ≡ expected_error c.state answer c.close_reason)
      × (error_of r.1 ≢ none → r.0.session_state ≡ c.session_state)
unfolding reset error_of is_session_properly_supported
reset-expected_error knows answer reauthenticated c = (ground arith, ground arith)
