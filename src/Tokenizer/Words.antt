-- ===== src/Tokenizer/Words.antt =====
-- Identifiers, reserved words and literals in quotes, as Tokenizer::get_tokens reads them.
use pecl_database_mysql_xdev.Common.{
  ℕ, suc, ◌+◌, ◌<◌, ◌≡◌, ◌≢◌, ◌⊎◌, sym, subst, refl, Bool, true, false, not, ◌&&◌, ◌||◌, ◌==◌,
  if◌then◌else◌, List, [], ◌∷◌, ◌++◌, Option, ok, err, Bytes, length, length-append, append-nil,
  append_assoc, arith, iequals, is_alpha, is_digit, is_space, Bool-cases, inl, inr,
}
use pecl_database_mysql_xdev.Tokenizer.Tokens.{
  Token, TokenType, find_word, reserved_word, reserved_words, ident, lstring,
}
use pecl_database_mysql_xdev.Tokenizer.Rounds.{unterminated, span, emit}
use pecl_database_mysql_xdev.Tokenizer.Literals.{quoted, quoted_token, word, is_word, word_type}
use pecl_database_mysql_xdev.Tokenizer.{lex_one, get_tokens}

iequals_trans : (n w v : Bytes) → iequals w v ≡ true → iequals n w ≡ iequals n v
unfolding iequals
iequals_trans [] [] [] h = refl
iequals_trans [] [] (d ∷ v) h = ground arith
iequals_trans [] (c ∷ w) [] h = ground arith
iequals_trans [] (c ∷ w) (d ∷ v) h = refl
iequals_trans (b ∷ n) [] [] h = refl
iequals_trans (b ∷ n) [] (d ∷ v) h = ground arith
iequals_trans (b ∷ n) (c ∷ w) [] h = ground arith
iequals_trans (b ∷ n) (c ∷ w) (d ∷ v) h = ground (arith, iequals_trans n w v)

find_word-iequals :
    (w v : Bytes) (m : List (Bytes × TokenType))
    → iequals w v ≡ true
    → find_word w m ≡ find_word v m
unfolding find_word
find_word-iequals w v [] h = refl
find_word-iequals w v ((name, t) ∷ rest) h =
    rw (iequals_trans name w v h, find_word-iequals w v rest h)

reserved_word-iequals : (w v : Bytes) → iequals w v ≡ true → reserved_word w ≡ reserved_word v
unfolding reserved_word
reserved_word-iequals w v h = find_word-iequals w v reserved_words h

-- The text of a literal between quotes `q`: `q`, and a backslash unless `q` is a back-tick, is doubled.
abbrev pub escape : ℕ → Bytes → Bytes
escape q [] = []
escape q (c ∷ cs) =
    if c == q || (c == b'\\' && not (q == b'`')) then c ∷ c ∷ escape q cs else c ∷ escape q cs

module _ (last inside : Bool) (q start : ℕ) where
  quoted-plain :
      (val : Bytes) (i c : ℕ) (cs : Bytes)
      → (c == q || (c == b'\\' && not (q == b'`'))) ≡ false
      → 0 < length cs
      → quoted last inside q start val i (c ∷ cs)
        ≡ quoted last inside q start (val ++ c ∷ []) (i + 1) cs
  unfolding quoted
  quoted-plain val i c [] h pos = ground arith
  quoted-plain val i c (d ∷ cs) h pos = ground arith

  quoted-pair :
      (val : Bytes) (i c : ℕ) (cs : Bytes)
      → (c == q || (c == b'\\' && not (q == b'`'))) ≡ true
      → quoted last inside q start val i (c ∷ c ∷ cs)
        ≡ quoted last inside q start (val ++ c ∷ []) (i + 2) cs
  unfolding quoted
  quoted-pair val i c cs h = ground arith

  -- What is behind an escaped text is read in the state behind it.
  quoted-escape :
      (body val : Bytes) (i : ℕ) (more : Bytes)
      → 0 < length more
      → quoted last inside q start val i (escape q body ++ more)
        ≡ quoted last inside q start (val ++ body) (i + length (escape q body)) more
  quoted-escape [] val i more pos = let z : i + 0 ≡ i = omega arith in rw (append-nil val, z)
  quoted-escape (c ∷ body) val i more pos =
      let tail = escape q body ++ more in
      let some_left = length-append {0} (escape q body) more in
      let text = append_assoc val (c ∷ []) body in
      elim (Bool-cases (c == q || (c == b'\\' && not (q == b'`')))) [
        | inl e ↦
            let at : i + suc (suc (length (escape q body))) ≡ (i + 2) + length (escape q body) =
              omega arith in
            rw (
              e,
              quoted-pair val i c tail e,
              at,
              quoted-escape body (val ++ c ∷ []) (i + 2) more pos,
              text,
            )
        | inr e ↦
            let at : i + suc (length (escape q body)) ≡ (i + 1) + length (escape q body) =
              omega arith in
            rw (
              e,
              quoted-plain val i c tail e (omega arith),
              at,
              quoted-escape body (val ++ c ∷ []) (i + 1) more pos,
              text,
            )
      ]

  quoted-last :
      (val : Bytes) (i z : ℕ)
      → (z == q || (z == b'\\' && not (q == b'`'))) ≡ true
      → quoted last inside q start val i (z ∷ []) ≡ ok (quoted_token last inside q val i [])
  unfolding quoted
  quoted-last val i z h = rw h

  escape_pos : (c : ℕ) (body : Bytes) → 0 < length (escape q (c ∷ body))
  escape_pos c body = ground arith

  quoted-open :
      (body val : Bytes) (i : ℕ)
      → quoted last inside q start val i (escape q body) ≡ err (unterminated start)
  unfolding quoted
  quoted-open [] val i = refl
  quoted-open (c ∷ []) val i = ground arith
  quoted-open (c ∷ b ∷ body) val i = elim (Bool-cases (c == q || (c == b'\\' && not (q == b'`')))) [
    | inl e ↦
        rw (e, quoted-pair val i c (escape q (b ∷ body)) e)
          (quoted-open (b ∷ body) (val ++ c ∷ []) (i + 2))
    | inr e ↦
        rw (e, quoted-plain val i c (escape q (b ∷ body)) e (escape_pos b body))
          (quoted-open (b ∷ body) (val ++ c ∷ []) (i + 1))
  ]

-- The quotes of a literal.
abbrev pub IsQuote : ℕ → Type 0
IsQuote q = (q ≡ b'\'') ⊎ (q ≡ b'"') ⊎ (q ≡ b'`')

-- At the start of the input, a quote begins a literal.
lex-quote :
    (q : ℕ) (cs : Bytes) → IsQuote q → lex_one false false 0 q cs ≡ quoted false false q 1 [] 1 cs
unfolding lex_one
lex-quote q cs (inl e) =
    subst (λ (c : ℕ). lex_one false false 0 c cs ≡ quoted false false c 1 [] 1 cs) (sym e) refl
lex-quote q cs (inr (inl e)) =
    subst (λ (c : ℕ). lex_one false false 0 c cs ≡ quoted false false c 1 [] 1 cs) (sym e) refl
lex-quote q cs (inr (inr e)) =
    subst (λ (c : ℕ). lex_one false false 0 c cs ≡ quoted false false c 1 [] 1 cs) (sym e) refl

-- The token of a literal with the text `body`.
abbrev pub literal_of : ℕ → Bytes → Token
literal_of q body = record {
  type = if q == b'`' then ident else lstring;
  text = body;
  pos = 1 + length (escape q body);
}

-- A text printed as a literal, with the bytes doubled that would end it or stand for another,
-- is read as one token that holds the text: a string, or an identifier between back-ticks. The
-- closing byte `z` is the quote, but a string also ends at a backslash that is the last byte of
-- the input.
pub get_tokens-escape :
    (q z : ℕ) (body : Bytes)
    → IsQuote q
    → (z ≡ q) ⊎ ((z ≡ b'\\') × (q ≢ b'`'))
    → get_tokens (q ∷ escape q body ++ z ∷ []) ≡ ok (literal_of q body ∷ [])
unfolding get_tokens quoted_token
get_tokens-escape q z body h k =
    let ends : (z == q || (z == b'\\' && not (q == b'`'))) ≡ true = ground arith in
    rw
      (
        lex-quote q (escape q body ++ z ∷ []) h,
        quoted-escape false false q 1 body [] 1 (z ∷ []) (omega arith),
        quoted-last false false q 1 body (1 + length (escape q body)) z ends,
      )
      refl

-- Without its closing quote a literal is an error that names its start.
get_tokens-unterminated :
    (q : ℕ) (body : Bytes) → IsQuote q → get_tokens (q ∷ escape q body) ≡ err (unterminated 1)
unfolding get_tokens
get_tokens-unterminated q body h =
    rw (lex-quote q (escape q body) h, quoted-open false false q 1 body [] 1)

-- The words of the language: a letter or `_`, then letters, digits and `_`.
abbrev pub IsRest : Bytes → Type 0
IsRest [] = Unit
IsRest (c ∷ cs) = (is_word c ≡ true) × IsRest cs

abbrev pub IsWord : Bytes → Type 0
IsWord [] = ⊥
IsWord (c ∷ cs) = ((is_alpha c || c == b'_') ≡ true) × IsRest cs

span-IsRest : (cs : Bytes) → IsRest cs → span is_word cs ≡ record { taken = cs; left = [] }
unfolding span
span-IsRest [] h = refl
span-IsRest (c ∷ cs) (e, h) = rw (e, span-IsRest cs h)

word-IsRest :
    (last inside : Bool) (i : ℕ) (w : Bytes)
    → IsRest w
    → word last inside i w
      ≡ emit (word_type (reserved_word w)) w (i + length w) last inside (i + length w) []
unfolding word
word-IsRest last inside i w h = rw (span-IsRest w h) refl

lex-letter :
    (c : ℕ) (cs : Bytes)
    → (is_alpha c || c == b'_') ≡ true
    → lex_one false false 0 c cs ≡ ok (word false false 0 (c ∷ cs))
unfolding lex_one
lex-letter c cs h =
    let space : is_space c ≡ false = ground arith in
    let digit : is_digit c ≡ false = ground arith in
    let letter : (not (is_alpha c) && not (c == b'_')) ≡ false = ground arith in
    rw (space, digit, letter) refl

letter-is_word : (c : ℕ) → (is_alpha c || c == b'_') ≡ true → is_word c ≡ true
letter-is_word c h = ground arith

lex_one-word :
    (c : ℕ) (cs : Bytes)
    → IsWord (c ∷ cs)
    → lex_one false false 0 c cs
      ≡ ok (
          emit
            (word_type (reserved_word (c ∷ cs)))
            (c ∷ cs)
            (suc (length cs))
            false
            false
            (suc (length cs))
            [])
lex_one-word c cs (e, h) =
    let z : 0 + suc (length cs) ≡ suc (length cs) = omega arith in
    rw (lex-letter c cs e, word-IsRest false false 0 (c ∷ cs) (letter-is_word c e, h), z) refl

get_tokens-word :
    (w : Bytes)
    → IsWord w
    → get_tokens w
      ≡ ok (record { type = word_type (reserved_word w); text = w; pos = length w } ∷ [])
unfolding get_tokens
get_tokens-word [] h = absurd h
get_tokens-word (c ∷ cs) h = rw (lex_one-word c cs h) refl

-- Two words that differ in the case of letters only are each read as one token, which holds the
-- word as it is written, and both tokens have the same type.
get_tokens-iequals :
    (w v : Bytes)
    → IsWord w
    → IsWord v
    → iequals w v ≡ true
    → (get_tokens w
        ≡ ok (record { type = word_type (reserved_word w); text = w; pos = length w } ∷ []))
      × (get_tokens v
          ≡ ok (record { type = word_type (reserved_word w); text = v; pos = length v } ∷ []))
get_tokens-iequals w v h k e = (
  get_tokens-word w h,
  subst
      (λ (t : Option TokenType).
        get_tokens v ≡ ok (record { type = word_type t; text = v; pos = length v } ∷ []))
      (sym (reserved_word-iequals w v e)) (get_tokens-word v k),
)
