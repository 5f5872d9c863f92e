-- ===== src/Pool.antt =====
-- The connection pool of mysqlx_client.cc, class Connection_pool, with close_connection of
-- mysqlx_session.cc. Sessions are shared objects: they stand in a store by their address, and the
-- pool, its users and the waiting threads name them by it. Each call holds the mutex, so a
-- history is a sequence of calls; a wait on the condition variable is a call that returns `waits`
-- and is taken up later by `wake`. Times are milliseconds. What a server answers is an argument.
pub mod Handles
pub mod History
pub mod Bound
pub mod Prune
pub mod Reuse
pub mod Tests
use pecl_database_mysql_xdev.Common.{
  ℕ, ◌+◌, Bool, true, false, not, ◌&&◌, ◌||◌, leb, ltb, ◌==◌, if◌then◌else◌, List, [], ◌∷◌, ◌++◌,
  Option, none, some, Status, pass, fail, length, map, contains,
}
use pecl_database_mysql_xdev.Session.{
  Session, CloseReason, Code, Outcome, returned, thrown, initial, ready, explicit, implicit,
  send_close, reset, set, set_closed, has_closed_with_error,
}

-- `Connection_pool_options`, with the defaults of its members.
pub record Options : Type 0 where
  pub enabled : Bool
  pub max_size : ℕ
  pub max_idle_time : ℕ
  pub queue_timeout : ℕ

abbrev pub default_options : Options
default_options = record { enabled = true; max_size = 25; max_idle_time = 0; queue_timeout = 0 }

-- `Idle_connection`.
pub record Idle : Type 0 where
  pub connection : ℕ
  pub expiration_time : ℕ

-- `Connection_pool`. The set of active connections is a list with no entry twice.
pub record Pool : Type 0 where
  pub pooling_disabled : Bool
  pub max_size : ℕ
  pub max_idle_time : ℕ
  pub queue_timeout : ℕ
  pub active : List ℕ
  pub idle : List Idle
  pub next_prune_time : ℕ

unfoldable pub create : Options → Pool
create o = record {
  pooling_disabled = not o.enabled;
  max_size = o.max_size;
  max_idle_time = o.max_idle_time;
  queue_timeout = o.queue_timeout;
  active = [];
  idle = [];
  next_prune_time = 0;
}

-- The pool and the sessions that there are; `next_handle` is an address not used so far.
pub record World : Type 0 where
  pub pool : Pool
  pub open pool use *
  pub session_at : ℕ → Session
  pub next_handle : ℕ

-- What the server answers in one call.
pub record Answers : Type 0 where
  pub connected : Bool
  pub knows_keep_open : Bool
  pub reset_answer : Status
  pub reauthenticated : Status

pub data Exception : Type 0 where
  connection_failed queue_timeout_elapsed : Exception
  reset_failed : Code → Exception

pub data Got : Type 0 where
  got : ℕ → Got
  waits : Got
  throws : Exception → Got

abbrev pub update : (ℕ → Session) → ℕ → Session → ℕ → Session
update f h s k = if k == h then s else f k

abbrev pub remove : ℕ → List ℕ → List ℕ
remove h [] = []
remove h (x ∷ xs) = if x == h then xs else x ∷ remove h xs

-- `std::set::insert`.
abbrev pub insert : ℕ → List ℕ → List ℕ
insert h xs = if contains xs h then xs else h ∷ xs

abbrev pub count : World → ℕ
count w = length w.active + length w.idle

unfoldable pub is_full : World → Bool
is_full w = count w == w.max_size

unfoldable pub can_pool_connection : World → ℕ → Bool
unfolding has_closed_with_error
can_pool_connection w h = not (has_closed_with_error (w.session_at h).session_state)

-- A session just connected.
abbrev new_session : Bool → Session
new_session persistent = record {
  session_state = set ready initial;
  properly_supported = none;
  pooled = false;
  persistent = persistent;
  stream_open = true;
  sent = [];
}

unfoldable pub create_new_connection : Bool → Answers → World → World × Got
unfolding set
create_new_connection persistent a w =
    if a.connected
    then (
      record w {
        session_at = update w.session_at w.next_handle (new_session persistent);
        next_handle = w.next_handle + 1;
      },
      got w.next_handle,
    )
    else (w, throws connection_failed)

unfoldable pub create_non_pooled_connection : Answers → World → World × Got
unfolding create_new_connection
create_non_pooled_connection = create_new_connection false

-- `active_connections.insert`, and `set_pooled`.
abbrev enlist : World × Got → World × Got
enlist (w, got h) = (
  record w {
    pool = record w.pool { active = insert h w.active };
    session_at = update w.session_at h (record (w.session_at h) { pooled = true });
  },
  got h,
)
enlist r = r

unfoldable pub add_new_connection : Answers → World → World × Got
unfolding create_new_connection
add_new_connection a w = enlist (create_new_connection true a w)

-- What `connection->reset()` makes of the call: its status is dropped, its exception is not.
abbrev after_reset : ℕ → Outcome → Got
after_reset h (returned s) = got h
after_reset h (thrown e) = throws (reset_failed e)

-- `pop_idle_connection` on the first of the idle connections: the connection is active before it
-- is reset.
unfoldable pub pop_front : Idle → List Idle → Answers → World → World × Got
unfolding reset
pop_front i rest a w =
    let h = i.connection in
    let (s, outcome) = reset a.knows_keep_open a.reset_answer a.reauthenticated (w.session_at h) in
    (
      record w {
        pool = record w.pool { active = insert h w.active; idle = rest };
        session_at = update w.session_at h s;
      },
      after_reset h outcome,
    )

-- `wait_for_idle_connection` and `try_pop_idle_connection`: a waiting thread looks at the
-- condition, at first and whenever it is woken or its time has run out.
unfoldable pub wake : Bool → Answers → World → World × Got
unfolding pop_front
wake timed_out a w = elim w.idle [
  | [] ↦
      if timed_out && not (w.queue_timeout == 0)
      then (w, throws queue_timeout_elapsed)
      else (w, waits)
  | i ∷ rest ↦ pop_front i rest a w
]

unfoldable pub get_connection : Answers → World → World × Got
unfolding create_non_pooled_connection pop_front is_full wake add_new_connection
get_connection a w = if w.pooling_disabled then create_non_pooled_connection a w else elim w.idle [
  | i ∷ rest ↦ pop_front i rest a w
  | [] ↦ if is_full w then wake false a w else add_new_connection a w
]

-- `push_idle_connection` with `create_idle_connection`: the session moves to a new address, and
-- what is left at the old one is closed for no reason.
unfoldable pub push_idle_connection : ℕ → ℕ → World → World
unfolding set_closed
push_idle_connection now h w =
    let old = w.session_at h in
    let moved = record old { properly_supported = none } in
    let left = record old {
      session_state = set_closed CloseReason.none old.session_state;
      pooled = false;
      stream_open = false;
    } in
    let entry : Idle = record {
      connection = w.next_handle;
      expiration_time = now + w.max_idle_time;
    } in
    record w {
      pool = record w.pool { idle = w.idle ++ entry ∷ [] };
      session_at = update (update w.session_at h left) w.next_handle moved;
      next_handle = w.next_handle + 1;
    }

unfoldable pub on_close : ℕ → ℕ → World → World
unfolding can_pool_connection push_idle_connection
on_close now h w =
    let dropped = record w { pool = record w.pool { active = remove h w.active } } in
    if not (contains w.active h)
    then w
    else if can_pool_connection dropped h
    then push_idle_connection now h dropped
    else dropped

-- `Session_data::close_connection`.
unfoldable pub close_connection : Bool → ℕ → ℕ → World → World
unfolding on_close
close_connection knows now h w = if (w.session_at h).pooled then on_close now h w else record w {
  session_at = update w.session_at h (send_close knows explicit (w.session_at h)).0;
}

-- `std::find_if` and the `erase` before it.
unfoldable pub drop_expired : ℕ → List Idle → List Idle
drop_expired now [] = []
drop_expired now (i ∷ rest) = if ltb now i.expiration_time then i ∷ rest else drop_expired now rest

-- The connections that the `erase` takes away.
unfoldable pub expired : ℕ → List Idle → List Idle
expired now [] = []
expired now (i ∷ rest) = if ltb now i.expiration_time then [] else i ∷ expired now rest

-- `send_close` on each of the connections, in order.
unfoldable pub close_all : CloseReason → Bool → List ℕ → (ℕ → Session) → ℕ → Session
close_all reason knows [] f = f
close_all reason knows (h ∷ hs) f =
    close_all reason knows hs (update f h (send_close knows reason (f h)).0)

abbrev pub idle_handles : List Idle → List ℕ
idle_handles = map (λ i. i.connection)

-- An erased connection is destroyed, and the destructor of its session closes it implicitly.
unfoldable pub prune_expired_connections : Bool → ℕ → World → World
unfolding drop_expired expired close_all
prune_expired_connections knows now w =
    if w.max_idle_time == 0 || leb now w.next_prune_time then w else record w {
      pool = record w.pool {
        idle = drop_expired now w.idle;
        next_prune_time = now + w.max_idle_time;
      };
      session_at = close_all implicit knows (idle_handles (expired now w.idle)) w.session_at;
    }

-- `close(Explicit)` on the active and on the idle connections.
unfoldable pub close : Bool → World → World
unfolding close_all
close knows w = record w {
  pool = record w.pool { active = []; idle = [] };
  session_at =
      close_all explicit knows (idle_handles w.idle)
        (close_all explicit knows w.active w.session_at);
}
