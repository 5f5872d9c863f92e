-- ===== src/Pool/Bound.antt =====
-- The invariant of the pool of mysqlx_client.cc: the assertion of is_full and the ownership of
-- connections, over every call.
use pecl_database_mysql_xdev.Common.{
  ℕ, ◌+◌, ◌≤◌, ◌<◌, ◌≡◌, refl, subst, ap, Bool, true, false, List, [], ◌∷◌, length, length-append,
  contains, arith,
}
use pecl_database_mysql_xdev.Session.{Session}
use pecl_database_mysql_xdev.Pool.{
  Idle, World, Options, Answers, create, remove, count, idle_handles, get_connection, wake,
  pop_front, add_new_connection, create_new_connection, is_full, create_non_pooled_connection,
  on_close, push_idle_connection, close_connection, prune_expired_connections, close,
}
use pecl_database_mysql_xdev.Pool.History.{
  Call, gets, wakes, releases, dies, prunes, closes, step, run, start,
}
use pecl_database_mysql_xdev.Pool.Handles.{
  Below, Distinct, Apart, Below-mono, contains-Below, contains-remove, remove-Distinct,
  remove-Below, length-remove, Apart-remove, Apart-cons, append-Distinct, append-Apart,
  append-Below, drop_expired-valid,
}

pub record IsValid (w : World) : Type 0 where
  pub bounded : count w ≤ w.max_size
  pub active_distinct : Distinct w.active
  pub idle_distinct : Distinct (idle_handles w.idle)
  pub apart : Apart (idle_handles w.idle) w.active
  pub active_below : Below w.next_handle w.active
  pub idle_below : Below w.next_handle (idle_handles w.idle)

create_new-IsValid :
    (p : Bool) (a : Answers) (w : World) → IsValid w → IsValid (create_new_connection p a w).0
unfolding create_new_connection
create_new-IsValid p a w v = ground (
  arith,
  Below-mono w.next_handle (w.next_handle + 1) w.active,
  Below-mono w.next_handle (w.next_handle + 1) (idle_handles w.idle),
)

add_new-IsValid :
    (a : Answers) (w : World)
    → IsValid w
    → count w < w.max_size
    → IsValid (add_new_connection a w).0
unfolding add_new_connection
add_new-IsValid a w v room = ground (
  arith,
  Below-mono w.next_handle (w.next_handle + 1) w.active,
  Below-mono w.next_handle (w.next_handle + 1) (idle_handles w.idle),
  contains-Below w.next_handle w.next_handle w.active v.active_below,
  contains-Below w.next_handle w.next_handle (idle_handles w.idle) v.idle_below,
  Apart-cons w.next_handle (idle_handles w.idle) w.active v.apart,
)

module _ (i : Idle) (rest : List Idle) (a : Answers) (w : World) (e : w.idle ≡ i ∷ rest) where
  pop_front-IsValid : IsValid w → IsValid (pop_front i rest a w).0
  unfolding pop_front
  pop_front-IsValid v =
      let distinct = subst (λ (is : List Idle). Distinct (idle_handles is)) e v.idle_distinct in
      let apart = subst (λ (is : List Idle). Apart (idle_handles is) w.active) e v.apart in
      let below =
        subst (λ (is : List Idle). Below w.next_handle (idle_handles is)) e v.idle_below in
      let size = ap (λ (is : List Idle). length is) e in
      ground (arith, Apart-cons i.connection (idle_handles rest) w.active apart.1)

push_idle-IsValid :
    (now h : ℕ) (w : World)
    → IsValid w
    → contains w.active h ≡ true
    → IsValid (
        push_idle_connection now h
          (record w { pool = record w.pool { active = remove h w.active } }))
unfolding push_idle_connection
push_idle-IsValid now h w v e =
    let n = w.next_handle in
    let entry : Idle = record { connection = n; expiration_time = now + w.max_idle_time } in
    record {
      bounded =
          omega
            (arith, length-append {0} w.idle (entry ∷ []), length-remove h w.active e, v.bounded);
      active_distinct = remove-Distinct h w.active v.active_distinct;
      idle_distinct =
          append-Distinct entry w.idle v.idle_distinct
            (contains-Below n n _ v.idle_below (omega arith));
      apart =
          append-Apart entry w.idle _ (Apart-remove h (idle_handles w.idle) w.active v.apart)
            (contains-remove h n w.active (contains-Below n n _ v.active_below (omega arith)));
      active_below =
          Below-mono n (n + 1) _ (omega arith) (remove-Below h n w.active v.active_below);
      idle_below =
          append-Below entry (n + 1) w.idle (Below-mono n (n + 1) _ (omega arith) v.idle_below)
            (omega arith);
    }

on_close-IsValid : (now h : ℕ) (w : World) → IsValid w → IsValid (on_close now h w)
unfolding on_close
on_close-IsValid now h w v = ground (
  arith,
  push_idle-IsValid now h w v,
  remove-Distinct h w.active v.active_distinct,
  remove-Below h w.next_handle w.active v.active_below,
  Apart-remove h (idle_handles w.idle) w.active v.apart,
  length-remove h w.active,
)

get-IsValid :
    (a : Answers) (w : World) (is : List Idle)
    → w.idle ≡ is
    → IsValid w
    → IsValid (get_connection a w).0
unfolding get_connection is_full wake create_non_pooled_connection
get-IsValid a w [] e v = ground (arith, create_new-IsValid false a w v, add_new-IsValid a w v)
get-IsValid a w (i ∷ rest) e v =
    ground (arith, create_new-IsValid false a w v, pop_front-IsValid i rest a w e v)

wake-IsValid :
    (t : Bool) (a : Answers) (w : World) (is : List Idle)
    → w.idle ≡ is
    → IsValid w
    → IsValid (wake t a w).0
unfolding wake
wake-IsValid t a w [] e v = ground arith
wake-IsValid t a w (i ∷ rest) e v = ground (arith, pop_front-IsValid i rest a w e v)

-- Every call keeps the pool within its size, its connections distinct, and none both active and
-- idle.
pub step-IsValid : (x : Call) (w : World) → IsValid w → IsValid (step w x)
unfolding step close_connection prune_expired_connections close
step-IsValid (gets a) w v = get-IsValid a w w.idle refl v
step-IsValid (wakes t a) w v = wake-IsValid t a w w.idle refl v
step-IsValid (releases knows now h) w v = ground (arith, on_close-IsValid now h w v)
step-IsValid (dies knows reason h) w v = ground arith
step-IsValid (prunes knows now) w v = ground (
  arith,
  drop_expired-valid now w.next_handle w.idle w.active v.idle_distinct v.apart v.idle_below,
)
step-IsValid (closes knows) w v = ground arith

pub run-IsValid : (xs : List Call) (w : World) → IsValid w → IsValid (run w xs)
unfolding run
run-IsValid [] w v = v
run-IsValid (x ∷ xs) w v = run-IsValid xs (step w x) (step-IsValid x w v)

pub start-IsValid : (o : Options) (sessions : ℕ → Session) (n : ℕ) → IsValid (start o sessions n)
unfolding create
start-IsValid o sessions n = ground arith

-- After any history of calls on a new pool, its active and idle connections together number at
-- most `max_size` (the assertion of `is_full`), each of them is there once, none is both active
-- and idle, and all stand at addresses in use.
pub run-start-IsValid :
    (o : Options) (sessions : ℕ → Session) (n : ℕ) (xs : List Call)
    → IsValid (run (start o sessions n) xs)
run-start-IsValid o sessions n xs = run-IsValid xs _ (start-IsValid o sessions n)
