-- ===== src/Pool/Prune.antt =====
-- Expired idle connections: prune_expired_connections of mysqlx_client.cc drops a front part of
-- the deque, which is right because the deque is ordered by expiration.
use pecl_database_mysql_xdev.Common.{
  ℕ, ◌+◌, ◌≤◌, ◌<◌, ◌≡◌, refl, subst, Bool, not, ◌||◌, ◌==◌, if◌then◌else◌, List, [], ◌∷◌, ◌++◌,
  arith, keep, ltb, leb, false, inl, inr, Bool-cases, ap, ◌∙◌, contains,
}
use pecl_database_mysql_xdev.Session.{Session, CloseReason, implicit, send_close}
use pecl_database_mysql_xdev.Pool.{
  Idle, World, Options, Answers, create, get_connection, wake, pop_front, add_new_connection,
  is_full, create_non_pooled_connection, on_close, push_idle_connection, close_connection,
  prune_expired_connections, drop_expired, close, expired, close_all, idle_handles, update,
}
use pecl_database_mysql_xdev.Pool.History.{
  Call, gets, wakes, releases, dies, prunes, closes, step, run, start,
}

abbrev pub From : ℕ → List Idle → Type 0
From t [] = Unit
From t (i ∷ is) = (t ≤ i.expiration_time) × From i.expiration_time is

abbrev pub Until : ℕ → List Idle → Type 0
Until m [] = Unit
Until m (i ∷ is) = (i.expiration_time ≤ m) × Until m is

-- The deque is ordered by expiration, and nothing expires later than what is pushed at `now`.
pub record IsOrdered (now : ℕ) (w : World) : Type 0 where
  pub ordered : From 0 w.idle
  pub last : Until (now + w.max_idle_time) w.idle

From-mono : (s t : ℕ) (is : List Idle) → s ≤ t → From t is → From s is
From-mono s t [] h f = tt
From-mono s t (i ∷ is) h f = (omega arith, f.1)

From-append :
    (t : ℕ) (e : Idle) (is : List Idle)
    → From t is
    → t ≤ e.expiration_time
    → Until e.expiration_time is
    → From t (is ++ e ∷ [])
From-append t e [] f h a = (h, tt)
From-append t e (i ∷ is) f h a = (f.0, From-append i.expiration_time e is f.1 a.0 a.1)

Until-append :
    (m : ℕ) (e : Idle) (is : List Idle)
    → Until m is
    → e.expiration_time ≤ m
    → Until m (is ++ e ∷ [])
Until-append m e [] a h = (h, tt)
Until-append m e (i ∷ is) a h = (a.0, Until-append m e is a.1 h)

Until-mono : (m n : ℕ) (is : List Idle) → m ≤ n → Until m is → Until n is
Until-mono m n [] h a = tt
Until-mono m n (i ∷ is) h a = (omega arith, Until-mono m n is h a.1)

From-keep :
    (now t : ℕ) (is : List Idle)
    → now < t
    → From t is
    → keep (λ i. ltb now i.expiration_time) is ≡ is
From-keep now t [] h f = refl
From-keep now t (i ∷ is) h f = ground (arith, From-keep now i.expiration_time is)

drop_expired-keep :
    (now t : ℕ) (is : List Idle)
    → From t is
    → drop_expired now is ≡ keep (λ i. ltb now i.expiration_time) is
unfolding drop_expired
drop_expired-keep now t [] f = refl
drop_expired-keep now t (i ∷ is) f =
    ground
      (arith, drop_expired-keep now i.expiration_time is f.1, From-keep now i.expiration_time is)

From-keep-none :
    (now t : ℕ) (is : List Idle)
    → now < t
    → From t is
    → keep (λ i. leb i.expiration_time now) is ≡ []
From-keep-none now t [] h f = refl
From-keep-none now t (i ∷ is) h f = ground (arith, From-keep-none now i.expiration_time is)

expired-keep :
    (now t : ℕ) (is : List Idle)
    → From t is
    → expired now is ≡ keep (λ i. leb i.expiration_time now) is
unfolding expired
expired-keep now t [] f = refl
expired-keep now t (i ∷ is) f =
    ground
      (arith, expired-keep now i.expiration_time is f.1, From-keep-none now i.expiration_time is)

close_all-other :
    (reason : CloseReason) (knows : Bool) (hs : List ℕ) (f : ℕ → Session) (h : ℕ)
    → contains hs h ≡ false
    → close_all reason knows hs f h ≡ f h
unfolding close_all
close_all-other reason knows [] f h e = refl
close_all-other reason knows (k ∷ hs) f h e =
    ground (arith, close_all-other reason knows hs (update f k (send_close knows reason (f k)).0) h)

drop_expired-From : (now t : ℕ) (is : List Idle) → From t is → From t (drop_expired now is)
unfolding drop_expired
drop_expired-From now t [] f = tt
drop_expired-From now t (i ∷ is) f = ground (
  arith,
  drop_expired-From now i.expiration_time is f.1,
  From-mono t i.expiration_time (drop_expired now is),
)

drop_expired-Until : (now m : ℕ) (is : List Idle) → Until m is → Until m (drop_expired now is)
unfolding drop_expired
drop_expired-Until now m [] a = tt
drop_expired-Until now m (i ∷ is) a = ground (arith, drop_expired-Until now m is a.1)

-- The clock at a call, given the clock before it.
abbrev clock : ℕ → Call → ℕ
clock t (releases knows now h) = now
clock t _ = t

-- The clock does not go back over the history.
abbrev pub Timely : ℕ → List Call → Type 0
Timely t [] = Unit
Timely t (x ∷ xs) = (t ≤ clock t x) × Timely (clock t x) xs

get-IsOrdered :
    (t : ℕ) (a : Answers) (w : World) (is : List Idle)
    → w.idle ≡ is
    → IsOrdered t w
    → IsOrdered t (get_connection a w).0
unfolding get_connection is_full wake create_non_pooled_connection pop_front add_new_connection
get-IsOrdered t a w [] e v = ground arith
get-IsOrdered t a w (i ∷ rest) e v =
    let all = subst (λ (is : List Idle). Until (t + w.max_idle_time) is) e v.last in
    let f = subst (λ (is : List Idle). From 0 is) e v.ordered in
    ground (arith, From-mono 0 i.expiration_time rest)

wake-IsOrdered :
    (t : ℕ) (o : Bool) (a : Answers) (w : World) (is : List Idle)
    → w.idle ≡ is
    → IsOrdered t w
    → IsOrdered t (wake o a w).0
unfolding wake pop_front
wake-IsOrdered t o a w [] e v = ground arith
wake-IsOrdered t o a w (i ∷ rest) e v =
    let all = subst (λ (is : List Idle). Until (t + w.max_idle_time) is) e v.last in
    let f = subst (λ (is : List Idle). From 0 is) e v.ordered in
    ground (arith, From-mono 0 i.expiration_time rest)

close_connection-IsOrdered :
    (t now : ℕ) (knows : Bool) (h : ℕ) (w : World)
    → t ≤ now
    → IsOrdered t w
    → IsOrdered now (close_connection knows now h w)
unfolding close_connection on_close push_idle_connection
close_connection-IsOrdered t now knows h w le v =
    let m = now + w.max_idle_time in
    let entry : Idle = record { connection = w.next_handle; expiration_time = m } in
    let all = Until-mono (t + w.max_idle_time) m w.idle (omega arith) v.last in
    ground (arith, From-append 0 entry w.idle v.ordered, Until-append m entry w.idle all)

step-IsOrdered :
    (t : ℕ) (x : Call) (w : World)
    → t ≤ clock t x
    → IsOrdered t w
    → IsOrdered (clock t x) (step w x)
unfolding step
step-IsOrdered t (gets a) w h v = get-IsOrdered t a w w.idle refl v
step-IsOrdered t (wakes o a) w h v = wake-IsOrdered t o a w w.idle refl v
step-IsOrdered t (releases knows now k) w h v = close_connection-IsOrdered t now knows k w h v
step-IsOrdered t (dies knows reason k) w h v = ground arith
step-IsOrdered t (prunes knows now) w h v =
    unfold prune_expired_connections in
    ground (
      arith,
      drop_expired-From now 0 w.idle v.ordered,
      drop_expired-Until now (t + w.max_idle_time) w.idle v.last,
    )
step-IsOrdered t (closes knows) w h v = unfold close in ground arith

abbrev last_clock : ℕ → List Call → ℕ
last_clock t [] = t
last_clock t (x ∷ xs) = last_clock (clock t x) xs

run-IsOrdered :
    (xs : List Call) (t : ℕ) (w : World)
    → Timely t xs
    → IsOrdered t w
    → IsOrdered (last_clock t xs) (run w xs)
unfolding run
run-IsOrdered [] t w h v = v
run-IsOrdered (x ∷ xs) t w h v =
    run-IsOrdered xs (clock t x) (step w x) h.1 (step-IsOrdered t x w h.0 v)

-- After any history of a new pool over which the clock does not go back, pruning at `now` keeps
-- exactly the idle connections that have not expired at `now`, in their order, unless idle
-- connections never expire or it is not yet time to prune; then it changes nothing. It does not
-- touch the active connections. The sessions of the connections it takes away, which are exactly
-- those that have expired, are closed implicitly, and every other session stays as it is.
pub prune_expired-keep :
    (o : Options) (sessions : ℕ → Session) (n t : ℕ) (xs : List Call) (knows : Bool) (now : ℕ)
    → Timely t xs
    → let w = run (start o sessions n) xs in
      let due = not (w.max_idle_time == 0 || leb now w.next_prune_time) in
      let p = prune_expired_connections knows now w in
      (p.idle ≡ (if due then keep (λ i. ltb now i.expiration_time) w.idle else w.idle))
      × (p.next_prune_time ≡ (if due then now + w.max_idle_time else w.next_prune_time))
      × (p.active ≡ w.active)
      × (p.session_at ≡ (
          if due
          then close_all implicit knows
              (idle_handles (keep (λ i. leb i.expiration_time now) w.idle))
              w.session_at
          else w.session_at))
      × ((h : ℕ)
          → contains (idle_handles (keep (λ i. leb i.expiration_time now) w.idle)) h ≡ false
          → p.session_at h ≡ w.session_at h)
unfolding prune_expired_connections
prune_expired-keep o sessions n t xs knows now timely =
    let w = run (start o sessions n) xs in
    let v = run-IsOrdered xs t (start o sessions n) timely (unfold create in ground arith) in
    let gone = expired-keep now 0 w.idle v.ordered in
    let dropped = drop_expired-keep now 0 w.idle v.ordered in
    elim (Bool-cases (w.max_idle_time == 0 || leb now w.next_prune_time)) [
      | inl early ↦ rw early (refl, refl, refl, refl, (λ h e. refl))
      | inr due ↦ rw due (
        dropped,
        refl,
        refl,
        ap (λ (is : List Idle). close_all implicit knows (idle_handles is) w.session_at) gone,
        (λ h e.
            close_all-other implicit knows (idle_handles (expired now w.idle)) w.session_at h
              (ap (λ (is : List Idle). contains (idle_handles is) h) gone ∙ e)),
      )
    ]
