-- ===== src/Connect/Compression/Choice.antt =====
-- Which algorithm xmysqlnd/xmysqlnd_compression_setup.cc ends with.
use pecl_database_mysql_xdev.Common.{
  ◌∙◌, ◌≡◌, ◌≢◌, refl, sym, ◌⊎◌, inl, inr, Bool, Bool-cases, true, false, List, [], ◌∷◌, Option,
  none, some, Result, ok, err, Bytes,
}
use pecl_database_mysql_xdev.Connect.Values.{Value}
use pecl_database_mysql_xdev.Connect.Compression.{
  Algorithm, none_, required, preferred, disabled, Code, compression_not_supported,
  compressor_not_available, compression_negotiation_failure, server_error, Reply, accepted,
  unanswered, raises, requested, is_algorithm_supported, is_any_compressor_available, negotiate,
  negotiated, setup, gather_capabilities, prepare_algorithms_to_negotiate, run_setup,
}

true≢false : true ≢ false
true≢false e = cc

module _ (available : Algorithm → Bool) (answer : Algorithm → Reply) where
  -- An algorithm is passed over when the server does not name it, when it is not built in, or when
  -- the request for it stays without an answer.
  abbrev pub IsPassed : List Algorithm → Algorithm → Type 0
  IsPassed server b = is_algorithm_supported available server b ≡ true → answer b ≡ unanswered

  -- `a` stands in the list, the server names it, it is built in and the server gives this reply;
  -- everything before it is passed over.
  abbrev pub IsFirst : Reply → List Algorithm → Algorithm → List Algorithm → Type 0
  IsFirst r server a [] = ⊥
  IsFirst r server a (b ∷ bs) =
      ((b ≡ a) × (is_algorithm_supported available server b ≡ true) × (answer b ≡ r))
      ⊎ (IsPassed server b × IsFirst r server a bs)

  -- All of the list is passed over.
  abbrev pub IsNone : List Algorithm → List Algorithm → Type 0
  IsNone server [] = Unit
  IsNone server (b ∷ bs) = IsPassed server b × IsNone server bs

  -- The first algorithm for which the server does anything is answered with an error.
  abbrev pub HasError : List Algorithm → List Algorithm → Type 0
  HasError server bs = (a : Algorithm) × IsFirst raises server a bs

  -- What the search returns.
  abbrev pub Found : List Algorithm → List Algorithm → Result Code (Option Algorithm) → Type 0
  Found server bs (ok none) = IsNone server bs
  Found server bs (ok (some a)) = IsFirst accepted server a bs
  Found server bs (err server_error) = HasError server bs
  Found server bs (err c) = ⊥

  later-Found :
      (server : List Algorithm) (b : Algorithm) (rest : List Algorithm)
      (o : Result Code (Option Algorithm))
      → IsPassed server b
      → Found server rest o
      → Found server (b ∷ rest) o
  later-Found server b rest (ok none) e f = (e, f)
  later-Found server b rest (ok (some a)) e f = inr (e, f)
  later-Found server b rest (err compression_not_supported) e f = f
  later-Found server b rest (err compressor_not_available) e f = f
  later-Found server b rest (err compression_negotiation_failure) e f = f
  later-Found server b rest (err server_error) e f = (f.0, inr (e, f.1))

  requested-Found :
      (server : List Algorithm) (b : Algorithm) (rest : List Algorithm)
      (o : Result Code (Option Algorithm)) (r : Reply)
      → answer b ≡ r
      → is_algorithm_supported available server b ≡ true
      → Found server rest o
      → Found server (b ∷ rest) (requested r b o)
  requested-Found server b rest o accepted e h f = inl (refl, h, e)
  requested-Found server b rest o unanswered e h f = later-Found server b rest o (λ x. e) f
  requested-Found server b rest o raises e h f = (b, inl (refl, h, e))

  negotiate-Found :
      (server algorithms : List Algorithm)
      → Found server algorithms (negotiate available answer server algorithms)
  unfolding negotiate
  negotiate-Found server [] = tt
  negotiate-Found server (a ∷ rest) =
      let later = negotiate-Found server rest in
      elim (Bool-cases (is_algorithm_supported available server a)) [
        | inl e ↦ rw e (
            requested-Found server a rest (negotiate available answer server rest) (answer a) refl e
              later)
        | inr e ↦ rw e (
            later-Found server a rest (negotiate available answer server rest)
              (λ x. absurd (true≢false (sym x ∙ e))) later)
      ]

  -- What a set-up may end with that must (`true`) or may (`false`) compress.
  abbrev pub Outcome : Bool → List Algorithm → List Algorithm → Result Code Algorithm → Type 0
  Outcome must server algorithms (ok a) =
      IsFirst accepted server a algorithms
      ⊎ ((must ≡ false) × (a ≡ none_) × IsNone server algorithms)
  Outcome must server algorithms (err server_error) = HasError server algorithms
  Outcome must server algorithms (err compression_not_supported) = (must ≡ true) × (server ≡ [])
  Outcome must server algorithms (err compressor_not_available) =
      (must ≡ true) × (server ≢ []) × (is_any_compressor_available available algorithms ≡ false)
  Outcome must server algorithms (err compression_negotiation_failure) =
      (must ≡ true)
      × (server ≢ [])
      × (is_any_compressor_available available algorithms ≡ true)
      × IsNone server algorithms

  negotiated-Outcome :
      (must : Bool) (server algorithms : List Algorithm) (o : Result Code (Option Algorithm))
      → (server ≡ [] → must ≡ false)
      → (must ≡ true → is_any_compressor_available available algorithms ≡ true)
      → Found server algorithms o
      → Outcome must server algorithms (negotiated must o)
  negotiated-Outcome must server algorithms (ok (some a)) h k f = inl f
  negotiated-Outcome false server algorithms (ok none) h k f = inr (refl, refl, f)
  negotiated-Outcome true server algorithms (ok none) h k f =
      (refl, (λ e. true≢false (h e)), k refl, f)
  negotiated-Outcome must server algorithms (err compression_not_supported) h k f = absurd f
  negotiated-Outcome must server algorithms (err compressor_not_available) h k f = absurd f
  negotiated-Outcome must server algorithms (err compression_negotiation_failure) h k f = absurd f
  negotiated-Outcome must server algorithms (err server_error) h k f = f

  setup-Outcome :
      (must : Bool) (server algorithms : List Algorithm)
      → Outcome must server algorithms (setup available answer must server algorithms)
  unfolding setup
  setup-Outcome false server algorithms =
      negotiated-Outcome false server algorithms _ (λ e. refl) (λ e. absurd (true≢false (sym e)))
        (negotiate-Found server algorithms)
  setup-Outcome true [] algorithms = (refl, refl)
  setup-Outcome true (b ∷ server) algorithms =
      elim (Bool-cases (is_any_compressor_available available algorithms)) [
        | inl e ↦ rw e (
            negotiated-Outcome true (b ∷ server) algorithms _ (λ x. cc) (λ x. e)
              (negotiate-Found (b ∷ server) algorithms))
        | inr e ↦ rw e (refl, (λ x. cc), e)
      ]

  -- With compression disabled the set-up ends with no algorithm. Otherwise the algorithms that the
  -- server names and that are built in are asked for in the client's order: the first that the
  -- server accepts is the one it ends with, and the first that the server answers with an error
  -- ends the set-up with that error, preferred or required. Where all requests stay without an
  -- answer, a preferred set-up ends without compression and a required one raises an error; a
  -- required one also raises when the server names no algorithm or none is built in.
  pub run_setup-Outcome :
      (names : Option (List Bytes)) (raw : Value)
      → (run_setup available answer disabled names raw ≡ ok none_)
        × Outcome false
            (gather_capabilities raw)
            (prepare_algorithms_to_negotiate names)
            (run_setup available answer preferred names raw)
        × Outcome true
            (gather_capabilities raw)
            (prepare_algorithms_to_negotiate names)
            (run_setup available answer required names raw)
  unfolding run_setup
  run_setup-Outcome names raw = (
    refl,
    setup-Outcome false (gather_capabilities raw) (prepare_algorithms_to_negotiate names),
    setup-Outcome true (gather_capabilities raw) (prepare_algorithms_to_negotiate names),
  )
