-- ===== src/Tokenizer/Totality.antt =====
-- The loop of Tokenizer::get_tokens as a whole: that it ends, and the order of its tokens.
use pecl_database_mysql_xdev.Common.{
  ℕ, suc, zero, ◌+◌, ◌≤◌, ◌≡◌, ◌≢◌, Bool, false, List, [], ◌∷◌, Option, none, some, Result, ok, err,
  ◌>>=◌, Bytes, length, arith, subst,
}
use pecl_database_mysql_xdev.Tokenizer.Tokens.{Token}
use pecl_database_mysql_xdev.Tokenizer.Rounds.{Error, out_of_fuel, Round}
use pecl_database_mysql_xdev.Tokenizer.Progress.{Advances, PosFrom, lex_one-Advances}
use pecl_database_mysql_xdev.Tokenizer.{lex_one, lex, get_tokens, push}

-- Positions that never go back and stay between two indices.
abbrev pub Between : ℕ → ℕ → List Token → Type 0
Between i e [] = Unit
Between i e (t ∷ ts) = (i ≤ t.pos) × (t.pos ≤ e) × Between t.pos e ts

abbrev pub Ends : ℕ → ℕ → Result Error (List Token) → Type 0
Ends i e (ok ts) = Between i e ts
Ends i e (err x) = x ≢ out_of_fuel

Between-le : (i j e : ℕ) (ts : List Token) → i ≤ j → Between j e ts → Between i e ts
Between-le i j e [] h b = b
Between-le i j e (t ∷ ts) h (from, to, b) = (omega arith, to, b)

push-Between :
    (i j e : ℕ) (o : Option Token) (ts : List Token)
    → i ≤ j
    → j ≤ e
    → PosFrom i j o
    → Between j e ts
    → Between i e (push o ts)
push-Between i j e none ts h k p b = Between-le i j e ts h b
push-Between i j e (some t) ts h k (from, to) b = (from, omega arith, Between-le t.pos j e ts to b)

module _ (i e : ℕ) (r : Round) where
  finish-Ends :
      (rest : Result Error (List Token))
      → i ≤ r.index
      → r.index ≤ e
      → PosFrom i r.index r.token
      → Ends r.index e rest
      → Ends i e (do ts ← rest; ok (push r.token ts))
  finish-Ends (ok ts) h k p b = push-Between i r.index e r.token ts h k p b
  finish-Ends (err x) h k p b = b

round-Ends :
    (fuel i : ℕ) (cs : Bytes)
    → suc (length cs) ≤ suc fuel
    → ((last inside : Bool) (j : ℕ) (ds : Bytes)
        → length ds ≤ fuel
        → Ends j (j + length ds) (lex fuel last inside j ds))
    → (x : Result Error Round) → Advances i (i + suc (length cs)) x
    → Ends i
        (i + suc (length cs))
        (do r ← x; ts ← lex fuel r.arrow_last r.inside_arrow r.index r.rest; ok (push r.token ts))
round-Ends fuel i cs h more (err x) a = a
round-Ends fuel i cs h more (ok r) (sum, less, pos) =
    finish-Ends i (i + suc (length cs)) r _ (omega arith) (omega arith) pos
      (rw (← sum) (more r.arrow_last r.inside_arrow r.index r.rest (omega arith)))

lex-Ends :
    (fuel : ℕ) (last inside : Bool) (i : ℕ) (cs : Bytes)
    → length cs ≤ fuel
    → Ends i (i + length cs) (lex fuel last inside i cs)
unfolding lex
lex-Ends fuel last inside i [] h = tt
lex-Ends zero last inside i (c ∷ cs) h = omega arith
lex-Ends (suc fuel) last inside i (c ∷ cs) h =
    round-Ends fuel i cs h (lex-Ends fuel) (lex_one last inside i c cs)
      (lex_one-Advances last inside i c cs)

Ends-ok :
    (i e : ℕ) (r : Result Error (List Token)) (ts : List Token)
    → r ≡ ok ts
    → Ends i e r
    → Between i e ts
Ends-ok i e r ts h b = subst (λ (x : Result Error (List Token)). Ends i e x) h b

Ends-err : (i e : ℕ) (r : Result Error (List Token)) → Ends i e r → r ≢ err out_of_fuel
Ends-err i e (ok ts) b = λ h. cc
Ends-err i e (err x) b = λ h. b cc

get_tokens-Ends : (input : Bytes) → Ends 0 (length input) (get_tokens input)
unfolding get_tokens
get_tokens-Ends input =
    let e : 0 + length input ≡ length input = omega arith in
    subst (λ (n : ℕ). Ends 0 n (lex (length input) false false 0 input)) e
      (lex-Ends (length input) false false 0 input (omega arith))

-- The tokenizer ends: it returns tokens or one of the errors of the source, never the end of the
-- fuel.
pub get_tokens-ends : (input : Bytes) → get_tokens input ≢ err out_of_fuel
get_tokens-ends input = Ends-err 0 (length input) (get_tokens input) (get_tokens-Ends input)

-- The tokens that the tokenizer returns have positions that never decrease and never lie behind
-- the end of the input.
pub get_tokens-Between :
    (input : Bytes) (ts : List Token) → get_tokens input ≡ ok ts → Between 0 (length input) ts
get_tokens-Between input ts e =
    Ends-ok 0 (length input) (get_tokens input) ts e (get_tokens-Ends input)
