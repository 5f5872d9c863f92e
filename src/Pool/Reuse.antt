-- ===== src/Pool/Reuse.antt =====
-- Who gets which connection from the pool of mysqlx_client.cc, and which slots are lost.
use pecl_database_mysql_xdev.Common.{
  ℕ, ◌≡◌, ◌≢◌, ◌↔◌, Bool, true, false, List, [], ◌∷◌, contains, arith, none,
}
use pecl_database_mysql_xdev.Session.{reset, has_closed_with_error}
use pecl_database_mysql_xdev.Pool.{
  World, Answers, got, waits, throws, remove, insert, get_connection, wake, pop_front,
  add_new_connection, create_new_connection, is_full, create_non_pooled_connection, on_close,
  push_idle_connection, can_pool_connection, after_reset, queue_timeout_elapsed,
}
use pecl_database_mysql_xdev.Pool.Handles.{
  contains-remove_self, contains-remove, length-remove, contains-Below,
}
use pecl_database_mysql_xdev.Pool.Bound.{IsValid}

-- A caller blocks exactly when pooling is enabled, no connection is idle and the pool is full.
get_connection-waits :
    (a : Answers) (w : World)
    → ((get_connection a w).1 ≡ waits)
      ↔ ((w.pooling_disabled ≡ false) × (w.idle ≡ []) × (is_full w ≡ true))
unfolding get_connection create_non_pooled_connection add_new_connection create_new_connection wake
    pop_front
get_connection-waits a w = (ground arith, ground arith)

-- A thread that waits gives up exactly when its time has run out, a queue timeout is set and
-- still no connection is idle; the pool is then as it was.
wake-gives_up :
    (timed_out : Bool) (a : Answers) (w : World)
    → let r = wake timed_out a w in
      ((r.1 ≡ throws queue_timeout_elapsed)
        ↔ ((timed_out ≡ true) × (w.queue_timeout ≢ 0) × (w.idle ≡ [])))
      × (r.1 ≡ throws queue_timeout_elapsed → r.0 ≡ w)
unfolding wake pop_front
wake-gives_up timed_out a w = ((ground arith, ground arith), ground arith)

contains-insert : (h : ℕ) (xs : List ℕ) → contains (insert h xs) h ≡ true
contains-insert h xs = ground arith

-- Whatever connection an enabled pool hands out is one of its active connections afterwards.
get_connection-active :
    (a : Answers) (w : World) (h : ℕ)
    → w.pooling_disabled ≡ false
    → (get_connection a w).1 ≡ got h
    → contains (get_connection a w).0.active h ≡ true
unfolding get_connection create_non_pooled_connection add_new_connection create_new_connection wake
    pop_front
get_connection-active a w h e g = ground (arith, contains-insert h w.active)

-- Closing a connection a second time changes nothing: it has left the active ones.
on_close_twice :
    (now now' h : ℕ) (w : World) → IsValid w → on_close now' h (on_close now h w) ≡ on_close now h w
unfolding on_close push_idle_connection
on_close_twice now now' h w v = ground (arith, contains-remove_self h w.active v.active_distinct)

-- A released connection that was not closed by an error is the one that the next caller gets, if
-- no other was idle: it has moved to a new address, keeps its session, and is reset first. Only
-- that reset can keep it from the caller.
pub on_close-get_connection :
    (now h : ℕ) (a : Answers) (w : World)
    → IsValid w
    → w.pooling_disabled ≡ false
    → w.idle ≡ []
    → contains w.active h ≡ true
    → has_closed_with_error (w.session_at h).session_state ≡ false
    → let r = get_connection a (on_close now h w) in
      let moved = record (w.session_at h) { properly_supported = none } in
      (r.1
        ≡ after_reset w.next_handle
            (reset a.knows_keep_open a.reset_answer a.reauthenticated moved).1)
      × (r.0.active ≡ w.next_handle ∷ remove h w.active)
      × (r.0.idle ≡ [])
unfolding on_close get_connection pop_front push_idle_connection can_pool_connection
on_close-get_connection now h a w v enabled empty active healthy =
    let n = w.next_handle in
    let absent =
      contains-remove h n w.active (contains-Below n n w.active v.active_below (omega arith)) in
    (ground arith, ground arith, ground arith)

-- A connection that comes back to a full pool closed by an error frees its slot, but whoever
-- waits for an idle connection goes on waiting, while a new caller would be given the slot.
pub on_close_error-waits :
    (now h : ℕ) (a : Answers) (w : World)
    → IsValid w
    → w.pooling_disabled ≡ false
    → w.idle ≡ []
    → contains w.active h ≡ true
    → has_closed_with_error (w.session_at h).session_state ≡ true
    → let w' = on_close now h w in
      (is_full w' ≡ false)
      × (wake false a w' ≡ (w', waits))
      × (get_connection a w' ≡ add_new_connection a w')
unfolding on_close get_connection wake is_full can_pool_connection
on_close_error-waits now h a w v enabled empty active broken = (
  ground (arith, length-remove h w.active active),
  ground arith,
  ground (arith, length-remove h w.active active),
)
