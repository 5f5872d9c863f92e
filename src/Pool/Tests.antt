-- ===== src/Pool/Tests.antt =====
-- Runs of the pool, and its theorems at concrete inputs.
use pecl_database_mysql_xdev.Common.{
  ℕ, ◌+◌, ◌≡◌, refl, true, false, not, ◌||◌, ◌==◌, if◌then◌else◌, List, [], ◌∷◌, contains, arith,
  pass, fail, none, keep, ltb, leb,
}
use pecl_database_mysql_xdev.Session.{
  implicit, Session, server_shutdown, reset, set, send_close, has_closed_with_error,
}
use pecl_database_mysql_xdev.Pool.{
  World, Options, Answers, got, waits, create, remove, update, get_connection, wake,
  add_new_connection, is_full, on_close, prune_expired_connections, close_connection, after_reset,
  new_session, close_all, idle_handles,
}
use pecl_database_mysql_xdev.Pool.Bound.{IsValid, run-start-IsValid, step-IsValid}
use pecl_database_mysql_xdev.Pool.History.{Call, gets, releases, dies, prunes, step, run, start}
use pecl_database_mysql_xdev.Pool.Prune.{prune_expired-keep}
use pecl_database_mysql_xdev.Pool.Reuse.{on_close-get_connection, on_close_error-waits}

abbrev healthy : Answers
healthy = record {
  connected = true;
  knows_keep_open = true;
  reset_answer = pass;
  reauthenticated = pass;
}

abbrev refuses_reset : Answers
refuses_reset = record healthy { reset_answer = fail }

abbrev options : Options
options = record { enabled = true; max_size = 1; max_idle_time = 10; queue_timeout = 5 }

abbrev nobody : ℕ → Session
nobody h = new_session false

-- A pool of one, whose connection 0 is out.
abbrev one_out : World
one_out = record {
  pool = record {
    pooling_disabled = false;
    max_size = 1;
    max_idle_time = 10;
    queue_timeout = 5;
    active = 0 ∷ [];
    idle = [];
    next_prune_time = 0;
  };
  session_at = update nobody 0 (record (new_session true) { pooled = true });
  next_handle = 1;
}

-- The same after the session of connection 0 was shut down by the server.
abbrev one_broken : World
one_broken = step one_out (dies true server_shutdown 0)

-- The connection came back at time 3.
abbrev one_idle : World
one_idle = record one_out {
  pool = record one_out.pool {
    active = [];
    idle = record { connection = 1; expiration_time = 13 } ∷ [];
  };
  next_handle = 2;
}

one_out-IsValid : IsValid one_out
one_out-IsValid = ground arith

one_broken-IsValid : IsValid one_broken
one_broken-IsValid = step-IsValid (dies true server_shutdown 0) one_out one_out-IsValid

first_call : (get_connection healthy (start options nobody 0)).1 ≡ got 0
unfolding create get_connection
first_call = refl

goes_idle : (on_close 3 0 one_out).idle ≡ record { connection = 1; expiration_time = 13 } ∷ []
unfolding on_close set
goes_idle = refl

abbrev history : List Call
history = gets healthy ∷ releases true 3 0 ∷ prunes true 20 ∷ []

history_prunes : (run (start options nobody 0) history).idle ≡ []
unfolding run step create get_connection close_connection prune_expired_connections
history_prunes = refl

run-start-IsValid_example : IsValid (run (start options nobody 0) history)
run-start-IsValid_example = run-start-IsValid options nobody 0 history

prune_expired-keep_example :
    let w = run (start options nobody 0) (gets healthy ∷ releases true 3 0 ∷ []) in
    let due = not (w.max_idle_time == 0 || leb 20 w.next_prune_time) in
    let p = prune_expired_connections true 20 w in
    (p.idle ≡ (if due then keep (λ i. ltb 20 i.expiration_time) w.idle else w.idle))
    × (p.next_prune_time ≡ (if due then 20 + w.max_idle_time else w.next_prune_time))
    × (p.active ≡ w.active)
    × (p.session_at ≡ (
        if due
        then close_all implicit true
            (idle_handles (keep (λ i. leb i.expiration_time 20) w.idle))
            w.session_at
        else w.session_at))
    × ((h : ℕ)
        → contains (idle_handles (keep (λ i. leb i.expiration_time 20) w.idle)) h ≡ false
        → p.session_at h ≡ w.session_at h)
prune_expired-keep_example =
    prune_expired-keep options nobody 0 0 (gets healthy ∷ releases true 3 0 ∷ []) true 20
      (omega arith)

on_close-get_connection_example :
    let r = get_connection healthy (on_close 3 0 one_out) in
    let moved = record (one_out.session_at 0) { properly_supported = none } in
    (r.1 ≡ after_reset 1 (reset true pass pass moved).1)
    × (r.0.active ≡ 1 ∷ remove 0 one_out.active)
    × (r.0.idle ≡ [])
unfolding has_closed_with_error set
on_close-get_connection_example =
    on_close-get_connection 3 0 healthy one_out one_out-IsValid refl refl refl refl

on_close_error-waits_example :
    let w' = on_close 3 0 one_broken in
    (is_full w' ≡ false)
    × (wake false healthy w' ≡ (w', waits))
    × (get_connection healthy w' ≡ add_new_connection healthy w')
unfolding step has_closed_with_error set send_close
on_close_error-waits_example =
    on_close_error-waits 3 0 healthy one_broken one_broken-IsValid refl refl refl refl
