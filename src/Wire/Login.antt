-- ===== src/Wire/Login.antt =====
-- When auth_start passes (xmysqlnd_receive_message with auth_start_handlers,
-- xmysqlnd/xmysqlnd_wireprotocol.cc).
use pecl_database_mysql_xdev.Common.{
  ◌≡◌, refl, sym, ap, subst, ◌∙◌, ◌↔◌, Bool, true, false, if◌then◌else◌, ℕ, List, [], ◌∷◌, ◌++◌,
  pass, fail, Bytes,
}
use pecl_database_mysql_xdev.Wire.{returned}
use pecl_database_mysql_xdev.Wire.{
  HndStatus, hnd_pass, hnd_fail, hnd_again, Notice, ok_, capabilities, auth_continue, auth_ok,
  error, notice, column_metadata, row, fetch_done, fetch_suspended, fetch_done_more_rsets,
  stmt_execute_ok, fetch_done_more_out_params, invalid_type, Frame, plain, compressed, Handlers,
  process_received_message, process_frame, status_of, receive_message,
}
use pecl_database_mysql_xdev.Wire.Requests.{Auth, send_reply, auth_notice, auth_start_handlers}
use pecl_database_mysql_xdev.Wire.Passing.{GoesOn, stays, goes, Ends, GoesOn-passes, passes-GoesOn}

-- The messages of an authentication; `invalid_type` is none, but the code refuses it.
abbrev pub expected : Frame → Bool
expected (plain auth_ok) = true
expected (plain (error code)) = true
expected (plain (notice n)) = true
expected (plain (auth_continue salt)) = true
expected (plain invalid_type) = true
expected (plain ok_) = false
expected (plain (capabilities v)) = false
expected (plain (column_metadata m)) = false
expected (plain (row fields)) = false
expected (plain fetch_done) = false
expected (plain fetch_suspended) = false
expected (plain fetch_done_more_rsets) = false
expected (plain stmt_execute_ok) = false
expected (plain fetch_done_more_out_params) = false
expected (compressed ps) = false

pub data Accepting : Frame → Type 0 where
  accepted : Accepting (plain auth_ok)
  unexpected_ : {f : Frame} → expected f ≡ false → Accepting f

module _ (prepare : Bytes → Bytes) (sends : Bytes → Bool) (muted : Bool) where
  abbrev pub login : Handlers Auth
  unfolding auth_start_handlers
  login = auth_start_handlers prepare sends muted

  -- Notices, and challenges that the plugin answers or has no answer for.
  pub data Exchange : Auth → List Frame → Auth → Type 0 where
    nothing : {s : Auth} → Exchange s [] s
    told :
        {s t : Auth}
        → {n : Notice} → {fs : List Frame} → Exchange (auth_notice prepare sends muted n s) fs t
        → Exchange s (plain (notice n) ∷ fs) t
    silent :
        {s t : Auth}
        → {salt : Bytes} → {fs : List Frame} → prepare salt ≡ []
        → Exchange s fs t
        → Exchange s (plain (auth_continue salt) ∷ fs) t
    replied :
        {s t : Auth}
        → {salt : Bytes} → {b : ℕ} → {output : Bytes} → {fs : List Frame}
        → prepare salt ≡ b ∷ output
        → sends (b ∷ output) ≡ true
        → Exchange (record s { sent = s.sent ++ (b ∷ output) ∷ [] }) fs t
        → Exchange s (plain (auth_continue salt) ∷ fs) t

  data Kind : Frame → Type 0 where
    accepts : Kind (plain auth_ok)
    refuses : {code : ℕ} → Kind (plain (error code))
    tells : {n : Notice} → Kind (plain (notice n))
    challenges : {salt : Bytes} → Kind (plain (auth_continue salt))
    invalid : Kind (plain invalid_type)
    unhandled :
        {f : Frame}
        → expected f ≡ false
        → ((s : Auth) → process_frame login f s ≡ (s, hnd_pass))
        → Kind f

  kind_of : (f : Frame) → Kind f
  unfolding auth_start_handlers process_received_message process_frame
  kind_of (plain auth_ok) = accepts
  kind_of (plain (error code)) = refuses
  kind_of (plain (notice n)) = tells
  kind_of (plain (auth_continue salt)) = challenges
  kind_of (plain invalid_type) = invalid
  kind_of (plain ok_) = unhandled refl (λ s. refl)
  kind_of (plain (capabilities v)) = unhandled refl (λ s. refl)
  kind_of (plain (column_metadata m)) = unhandled refl (λ s. refl)
  kind_of (plain (row fields)) = unhandled refl (λ s. refl)
  kind_of (plain fetch_done) = unhandled refl (λ s. refl)
  kind_of (plain fetch_suspended) = unhandled refl (λ s. refl)
  kind_of (plain fetch_done_more_rsets) = unhandled refl (λ s. refl)
  kind_of (plain stmt_execute_ok) = unhandled refl (λ s. refl)
  kind_of (plain fetch_done_more_out_params) = unhandled refl (λ s. refl)
  kind_of (compressed ps) = unhandled refl (λ s. refl)

  abbrev tried : Bool → Auth → Auth → Auth × HndStatus
  tried c after_sending s = if c then (after_sending, hnd_again) else (s, hnd_fail)

  sent_if :
      (c : Bool) (after_sending s t : Auth)
      → tried c after_sending s ≡ (t, hnd_again)
      → (c ≡ true) × (after_sending ≡ t)
  sent_if true x s t e = (refl, ap (λ (r : Auth × HndStatus). r.0) e)
  sent_if false x s t e = absurd (let status = ap (λ (r : Auth × HndStatus). r.1) e in cc)

  challenged-Exchange :
      (output salt : Bytes) (s t u : Auth) (fs : List Frame)
      → prepare salt ≡ output
      → send_reply prepare sends muted output s ≡ (t, hnd_again)
      → Exchange t fs u
      → Exchange s (plain (auth_continue salt) ∷ fs) u
  challenged-Exchange [] salt s t u fs p e x =
      silent p
        (subst (λ (a : Auth). Exchange a fs u) (sym (ap (λ (r : Auth × HndStatus). r.0) e)) x)
  challenged-Exchange (b ∷ output) salt s t u fs p e x =
      let sent =
        sent_if (sends (b ∷ output)) (record s { sent = s.sent ++ (b ∷ output) ∷ [] }) s t e in
      replied p sent.0 (subst (λ (a : Auth). Exchange a fs u) (sym sent.1) x)

  -- A frame that goes on is a notice or a challenge.
  goes-Exchange :
      (f : Frame) (s t u : Auth) (fs : List Frame)
      → Kind f
      → process_frame login f s ≡ (t, hnd_again)
      → Exchange t fs u
      → Exchange s (f ∷ fs) u
  unfolding auth_start_handlers process_received_message process_frame
  goes-Exchange _ s t u fs accepts e x =
      absurd (let status = ap (λ (r : Auth × HndStatus). r.1) e in cc)
  goes-Exchange _ s t u fs refuses e x =
      absurd (let status = ap (λ (r : Auth × HndStatus). r.1) e in cc)
  goes-Exchange _ s t u fs (tells {n = n}) e x =
      told (subst (λ (a : Auth). Exchange a fs u) (sym (ap (λ (r : Auth × HndStatus). r.0) e)) x)
  goes-Exchange _ s t u fs (challenges {salt = salt}) e x =
      challenged-Exchange (prepare salt) salt s t u fs refl e x
  goes-Exchange _ s t u fs invalid e x =
      absurd (let status = ap (λ (r : Auth × HndStatus). r.1) e in cc)
  goes-Exchange f s t u fs (unhandled h passed) e x =
      absurd (let status = ap (λ (r : Auth × HndStatus). r.1) (sym (passed s) ∙ e) in cc)

  GoesOn-Exchange : (s u : Auth) (fs : List Frame) → GoesOn login s fs u → Exchange s fs u
  GoesOn-Exchange s _ _ stays = nothing
  GoesOn-Exchange s u _ (goes {t = t} {f = f} {fs = fs} e more) =
      goes-Exchange f s t u fs (kind_of f) e (GoesOn-Exchange t u fs more)

  Exchange-GoesOn : (s u : Auth) (fs : List Frame) → Exchange s fs u → GoesOn login s fs u
  unfolding auth_start_handlers process_received_message process_frame
  Exchange-GoesOn s _ _ nothing = stays
  Exchange-GoesOn s u _ (told {n = n} {fs = fs} x) =
      goes refl (Exchange-GoesOn (auth_notice prepare sends muted n s) u fs x)
  Exchange-GoesOn s u _ (silent {fs = fs} p x) =
      goes (ap (λ (output : Bytes). send_reply prepare sends muted output s) p)
        (Exchange-GoesOn s u fs x)
  Exchange-GoesOn s u _ (replied {b = b} {output = output} {fs = fs} p yes_sent x) =
      let t = record s { sent = s.sent ++ (b ∷ output) ∷ [] } in
      goes
        (ap (λ (o : Bytes). send_reply prepare sends muted o s) p
          ∙ ap (λ (c : Bool). tried c t s) yes_sent)
        (Exchange-GoesOn t u fs x)

  Accepting-Ends : (f : Frame) (s : Auth) → Accepting f → Kind f → Ends login f s s
  unfolding auth_start_handlers process_received_message process_frame
  Accepting-Ends _ s accepted k = record { status = hnd_pass; processed = refl; passes = refl }
  Accepting-Ends _ s (unexpected_ h) accepts = absurd cc
  Accepting-Ends _ s (unexpected_ h) refuses = absurd cc
  Accepting-Ends _ s (unexpected_ h) tells = absurd cc
  Accepting-Ends _ s (unexpected_ h) challenges = absurd cc
  Accepting-Ends _ s (unexpected_ h) invalid = absurd cc
  Accepting-Ends f s (unexpected_ h) (unhandled h' passed) = record {
    status = hnd_pass;
    processed = passed s;
    passes = refl;
  }

  -- What a frame that ends the call with PASS leaves.
  ended_with :
      (f : Frame) (s t : Auth) (r : Auth × HndStatus)
      → process_frame login f s ≡ r
      → Ends login f s t
      → (r.0 ≡ t) × (status_of login r.1 ≡ returned pass)
  ended_with f s t r e v =
      let both = sym e ∙ v.processed in
      (
        ap (λ (q : Auth × HndStatus). q.0) both,
        ap (λ (q : Auth × HndStatus). status_of login q.1) both ∙ v.passes,
      )

  never_passes : (c : Bool) (x s : Auth) → status_of login (tried c x s).1 ≡ returned fail
  never_passes true x s = refl
  never_passes false x s = refl

  reply-never_passes :
      (output : Bytes) (s : Auth)
      → status_of login (send_reply prepare sends muted output s).1 ≡ returned fail
  reply-never_passes [] s = refl
  reply-never_passes (b ∷ output) s =
      never_passes (sends (b ∷ output)) (record s { sent = s.sent ++ (b ∷ output) ∷ [] }) s

  Ends-Accepting : (f : Frame) (s t : Auth) → Ends login f s t → Kind f → Accepting f × (s ≡ t)
  unfolding auth_start_handlers process_received_message process_frame
  Ends-Accepting f s t v accepts = (accepted, (ended_with f s t (s, hnd_pass) refl v).0)
  Ends-Accepting f s t v (refuses {code = code}) =
      absurd (let w = (ended_with f s t _ refl v).1 in cc)
  Ends-Accepting f s t v (tells {n = n}) = absurd (let w = (ended_with f s t _ refl v).1 in cc)
  Ends-Accepting f s t v (challenges {salt = salt}) = absurd (
      let w = (ended_with f s t (send_reply prepare sends muted (prepare salt) s) refl v).1 in
      let n = reply-never_passes (prepare salt) s in cc)
  Ends-Accepting f s t v invalid = absurd (let w = (ended_with f s t _ refl v).1 in cc)
  Ends-Accepting f s t v (unhandled h passed) =
      (unexpected_ h, (ended_with f s t (s, hnd_pass) (passed s) v).0)

  -- The read of auth_start passes with the state `u` and `rest` unread exactly where, after notices
  -- and challenges that are replied to or that the plugin has no reply to, AuthenticateOk follows or
  -- a message that is none of an authentication, such as a column, a row or a compressed message.
  -- No error, no reply that could not be sent and no invalid message stands before it.
  pub auth_start-passes :
      (frames rest : List Frame) (s u : Auth)
      → (receive_message login frames s ≡ (returned pass, u, rest)) ↔ (
          (fs : List Frame) × (f : Frame) × (frames ≡ fs ++ f ∷ rest)
          × Exchange s fs u
          × Accepting f)
  auth_start-passes frames rest s u = (
    (λ e.
        let r = passes-GoesOn login frames rest s u e in
        let last = Ends-Accepting r.1 r.2 u r.5 (kind_of r.1) in
        (
          r.0,
          r.1,
          r.3,
          subst (λ (a : Auth). Exchange s r.0 a) last.1 (GoesOn-Exchange s r.2 r.0 r.4),
          last.0,
        )),
    (λ r.
        ap (λ (l : List Frame). receive_message login l s) r.2
        ∙ GoesOn-passes login r.0 r.1 rest s u u (Exchange-GoesOn s u r.0 r.3)
            (Accepting-Ends r.1 u r.4 (kind_of r.1))),
  )
