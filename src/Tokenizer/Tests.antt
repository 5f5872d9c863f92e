-- ===== src/Tokenizer/Tests.antt =====
-- Runs of the tokenizer.
use pecl_database_mysql_xdev.Common.{
  ℕ, ◌≡◌, ◌≢◌, inl, inr, arith, refl, List, [], ◌∷◌, ok, err, Bytes, codes,
}
use pecl_database_mysql_xdev.Tokenizer.Tokens.{Token, TokenType, value}
use pecl_database_mysql_xdev.Tokenizer.Tokens
use pecl_database_mysql_xdev.Tokenizer.Rounds.{unterminated, missing_exponent, out_of_fuel}
use pecl_database_mysql_xdev.Tokenizer.{get_tokens}
use pecl_database_mysql_xdev.Tokenizer.Totality.{Between, get_tokens-ends, get_tokens-Between}
use pecl_database_mysql_xdev.Tokenizer.Words.{get_tokens-escape}

abbrev tok : TokenType → Bytes → ℕ → Token
tok t s p = record { type = t; text = s; pos = p }

run_column :
    get_tokens (codes "a.b->'$.c'")
    ≡ ok (
        tok Tokens.ident (codes "a") 1
        ∷ tok Tokens.dot (codes ".") 1
        ∷ tok Tokens.ident (codes "b") 3
        ∷ tok Tokens.arrow (codes "->") 4
        ∷ tok Tokens.quote (codes "'") 5
        ∷ tok Tokens.dollar (codes "$") 6
        ∷ tok Tokens.dot (codes ".") 7
        ∷ tok Tokens.ident (codes "c") 9
        ∷ tok Tokens.quote (codes "'") 9
        ∷ [])
unfolding get_tokens
run_column = refl

run_numbers :
    get_tokens (codes "1 .5e-3 2.0 >> IS")
    ≡ ok (
        tok Tokens.linteger (codes "1") 1
        ∷ tok Tokens.lnum (codes ".5e-3") 7
        ∷ tok Tokens.lnum (codes "2.0") 11
        ∷ tok Tokens.rshift (codes ">>") 13
        ∷ tok Tokens.is (codes "IS") 17
        ∷ [])
unfolding get_tokens
run_numbers = refl

run_open : get_tokens (codes "'abc") ≡ err (unterminated 1)
unfolding get_tokens
run_open = refl

run_backslash : get_tokens (codes "'abc\\") ≡ ok (tok Tokens.lstring (codes "abc") 4 ∷ [])
unfolding get_tokens
run_backslash = refl

run_exponent : get_tokens (codes "1.2e") ≡ err (missing_exponent 4)
unfolding get_tokens
run_exponent = refl

get_tokens-ends_example : get_tokens (codes "a.'x") ≢ err out_of_fuel
get_tokens-ends_example = get_tokens-ends (codes "a.'x")

abbrev two_parts : List Token
two_parts =
    tok Tokens.ident (codes "a") 1
    ∷ tok Tokens.dot (codes ".") 1
    ∷ tok Tokens.lstring (codes "x") 4
    ∷ []

run_two_parts : get_tokens (codes "a.'x'") ≡ ok two_parts
unfolding get_tokens
run_two_parts = refl

get_tokens-Between_example : Between 0 5 two_parts
get_tokens-Between_example = get_tokens-Between (codes "a.'x'") two_parts run_two_parts

get_tokens-escape_example :
    get_tokens (codes "'it''s\\") ≡ ok (tok Tokens.lstring (codes "it's") 6 ∷ [])
get_tokens-escape_example =
    get_tokens-escape b'\'' b'\\' (codes "it's") (inl refl) (inr (refl, λ e. omega arith))
