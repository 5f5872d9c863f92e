-- ===== src/Wire/Passing.antt =====
-- Calls that pass (xmysqlnd_receive_message of xmysqlnd/xmysqlnd_wireprotocol.cc): frames that ask to
-- go on, and one that passes.
use pecl_database_mysql_xdev.Common.{
  ◌≡◌, refl, sym, ap, ◌∙◌, ◌⊎◌, inl, inr, List, [], ◌∷◌, ◌++◌, pass,
}
use pecl_database_mysql_xdev.Wire.{
  HndStatus, hnd_pass, hnd_fail, hnd_pass_return_fail, hnd_again, hnd_again_async,
  hnd_default_action, undefined_behaviour, throws, Ending, returned, Frame, Handlers, process_frame,
  status_of, Received, after, receive_message,
}

module _ {S : Type 0} (h : Handlers S) where
  pub data GoesOn : S → List Frame → S → Type 0 where
    stays : {s : S} → GoesOn s [] s
    goes :
        {s t u : S}
        → {f : Frame} → {fs : List Frame} → process_frame h f s ≡ (t, hnd_again)
        → GoesOn t fs u
        → GoesOn s (f ∷ fs) u

  -- A frame that ends the call with PASS.
  pub record Ends (f : Frame) (s t : S) : Type 0 where
    pub status : HndStatus
    pub processed : process_frame h f s ≡ (t, status)
    pub passes : status_of h status ≡ returned pass

  after-cases :
      (st : HndStatus) (s : S) (rest : List Frame) (more : Received h)
      → (st ≡ hnd_again) ⊎ (after h st s rest more ≡ (status_of h st, s, rest))
  after-cases hnd_again s rest more = inl refl
  after-cases hnd_pass s rest more = inr refl
  after-cases hnd_fail s rest more = inr refl
  after-cases hnd_pass_return_fail s rest more = inr refl
  after-cases hnd_again_async s rest more = inr refl
  after-cases hnd_default_action s rest more = inr refl
  after-cases undefined_behaviour s rest more = inr refl
  after-cases (throws c) s rest more = inr refl

  abbrev next : Frame → List Frame → S × HndStatus → Received h
  next f rest r = after h r.1 r.0 rest (receive_message h rest r.0)

  received :
      (f : Frame) (rest : List Frame) (s : S)
      → receive_message h (f ∷ rest) s ≡ next f rest (process_frame h f s)
  unfolding receive_message
  received f rest s = refl

  pub goes_on :
      (f : Frame) (rest : List Frame) (s t : S)
      → process_frame h f s ≡ (t, hnd_again)
      → receive_message h (f ∷ rest) s ≡ receive_message h rest t
  goes_on f rest s t e = received f rest s ∙ ap (λ (r : S × HndStatus). next f rest r) e

  ends :
      (f : Frame) (rest : List Frame) (s t : S)
      → Ends f s t
      → receive_message h (f ∷ rest) s ≡ (returned pass, t, rest)
  ends f rest s t v = elim (after-cases v.status t rest (receive_message h rest t)) [
    | inl again ↦
        absurd (
          let failed = ap (λ (st : HndStatus). status_of h st) again in let passed = v.passes in cc)
    | inr stops ↦
        received f rest s
        ∙ (ap (λ (r : S × HndStatus). next f rest r) v.processed
            ∙ (stops ∙ ap (λ (o : Ending). (o, t, rest)) v.passes))
  ]

  -- Frames that go on and a frame that passes: the call passes behind them.
  pub GoesOn-passes :
      (fs : List Frame) (f : Frame) (rest : List Frame) (s t u : S)
      → GoesOn s fs t
      → Ends f t u
      → receive_message h (fs ++ f ∷ rest) s ≡ (returned pass, u, rest)
  GoesOn-passes _ f rest s _ u stays v = ends f rest s u v
  GoesOn-passes _ f rest s t u (goes {t = next_state} {f = g} {fs = fs} e more) v =
      goes_on g (fs ++ f ∷ rest) s next_state e ∙ GoesOn-passes fs f rest next_state t u more v

  -- Every call that passes is one of these.
  pub passes-GoesOn :
      (frames rest : List Frame) (s u : S)
      → receive_message h frames s ≡ (returned pass, u, rest)
      → (fs : List Frame) × (f : Frame) × (t : S) × (frames ≡ fs ++ f ∷ rest)
        × GoesOn s fs t
        × Ends f t u
  unfolding receive_message
  passes-GoesOn [] rest s u e = absurd (let status = ap (λ (r : Received h). r.0) e in cc)
  passes-GoesOn (f ∷ frames) rest s u e =
      let r = process_frame h f s in
      elim (after-cases r.1 r.0 frames (receive_message h frames r.0)) [
        | inl again ↦
            let step : process_frame h f s ≡ (r.0, hnd_again) =
              ap (λ (st : HndStatus). (r.0, st)) again in
            let later = passes-GoesOn frames rest r.0 u (sym (goes_on f frames s r.0 step) ∙ e) in
            (
              f ∷ later.0,
              later.1,
              later.2,
              ap (λ (l : List Frame). f ∷ l) later.3,
              goes step later.4,
              later.5,
            )
        | inr stops ↦
            let whole = sym stops ∙ e in
            (
              [],
              f,
              s,
              ap (λ (q : Received h). f ∷ q.2) whole,
              stays,
              record {
                status = r.1;
                processed = ap (λ (q : Received h). (q.1, r.1)) whole;
                passes = ap (λ (q : Received h). q.0) whole;
              },
            )
      ]
