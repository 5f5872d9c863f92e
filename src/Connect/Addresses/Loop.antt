-- ===== src/Connect/Addresses/Loop.antt =====
-- The loop of list_of_addresses_parser::parse, of xmysqlnd/xmysqlnd_session.cc, ends.
use pecl_database_mysql_xdev.Common.{
  ℕ, zero, suc, ◌+◌, ◌-◌, ◌≤◌, ◌<◌, ◌≡◌, refl, sym, subst, ltb, ◌==◌, Bool, Bool-cases, true, false,
  not, ◌&&◌, ◌||◌, inl, inr, if◌then◌else◌, [], ◌∷◌, Option, none, some, Bytes, length, length-drop,
  get_elem?, drop, keep, is_space, arith,
}
use pecl_database_mysql_xdev.Connect.Addresses.Scan.{
  Entry, substr, find_char, ListCheck, malformed, single, list_until, brackets, at_bracket,
  list_after, contains_list_of_url, RoundToken, bad_token, out_of_range, token, round_token,
}
use pecl_database_mysql_xdev.Connect.Addresses.{
  prio_values_not_inrange, Parser, parser_of, parser_at, parser, add_address, Scanned, scanned,
  failed, out_of_fuel, parse_loop, priority, Parsed, finish, parse,
}
use pecl_database_mysql_xdev.Connect.Addresses.Order.{
  Descends, InRange, InToken, Good, round_token-InToken, InRange-append, with_priorities-Descends,
}

find_char_le :
    (b i : ℕ) (s : Bytes) (k : ℕ) → find_char b i s ≡ some k → (i ≤ k) × (k < i + length s)
unfolding find_char
find_char_le b i [] k h = ground arith
find_char_le b i (c ∷ cs) k h = ground (arith, find_char_le b (i + 1) cs k)

add_address-InRange :
    (p : Parser) (e : Entry)
    → InRange (e ∷ [])
    → InRange p.list_of_addresses
    → InRange (add_address p e).list_of_addresses
unfolding add_address
add_address-InRange p (addr, none) r s = InRange-append p.list_of_addresses _ s r
add_address-InRange p (addr, some n) r s = InRange-append p.list_of_addresses _ s r

module _ (fuel : ℕ) (p : Parser)
    (ih : (idx last : ℕ) (q : Parser)
      → q.end + 1 < idx + fuel
      → InRange q.list_of_addresses
      → Good (parse_loop fuel idx last q)) where
  token_step :
      (idx pos : ℕ) (t : RoundToken)
      → InToken t
      → p.end + 1 < idx + suc fuel
      → idx ≤ pos
      → InRange p.list_of_addresses
      → Good (elim t [
        | bad_token ↦ failed none
        | out_of_range ↦ failed (some prio_values_not_inrange)
        | token addr priority ↦
            parse_loop fuel (pos + 1) (pos + 2) (add_address p (addr, some priority))
      ])
  unfolding add_address
  token_step idx pos bad_token t h le r = tt
  token_step idx pos out_of_range t h le r = tt
  token_step idx pos (token addr priority) t h le r =
      ih (pos + 1) (pos + 2) (add_address p (addr, some priority)) (omega arith)
        (add_address-InRange p (addr, some priority) (t, tt) r)

  paren_step :
      (idx : ℕ) (o : Option ℕ)
      → ((k : ℕ) → o ≡ some k → idx ≤ k)
      → p.end + 1 < idx + suc fuel
      → InRange p.list_of_addresses
      → Good (elim o [
        | none ↦ failed none
        | some pos ↦ elim (round_token (substr idx (pos - idx + 1) p.uri_string)) [
          | bad_token ↦ failed none
          | out_of_range ↦ failed (some prio_values_not_inrange)
          | token addr priority ↦
              parse_loop fuel (pos + 1) (pos + 2) (add_address p (addr, some priority))
        ]
      ])
  paren_step idx none le h r = tt
  paren_step idx (some pos) le h r =
      token_step idx pos (round_token (substr idx (pos - idx + 1) p.uri_string))
        (round_token-InToken _) h (le pos refl) r

  -- The step at a byte that is no round bracket: a separator, the end of the list or neither.
  host_step :
      (idx last : ℕ) (b : Bool) (host : Bytes)
      → p.end + 1 < idx + suc fuel
      → InRange p.list_of_addresses
      → Good (
          if b
          then parse_loop fuel (idx + 2) (idx + 1) (add_address p (host, none))
          else parse_loop fuel (idx + 1) last p)
  unfolding add_address
  host_step idx last true host h r =
      ih (idx + 2) (idx + 1) (add_address p (host, none)) (omega arith)
        (add_address-InRange p (host, none) tt r)
  host_step idx last false host h r = ih (idx + 1) last p (omega arith) r

  byte_step :
      (idx last c : ℕ) (b : Bool) (host : Bytes)
      → p.end + 1 < idx + suc fuel
      → InRange p.list_of_addresses
      → Good (
          if c == b'('
          then elim (find_char b')' idx (drop idx p.uri_string)) [
            | none ↦ failed none
            | some pos ↦ elim (round_token (substr idx (pos - idx + 1) p.uri_string)) [
              | bad_token ↦ failed none
              | out_of_range ↦ failed (some prio_values_not_inrange)
              | token addr priority ↦
                  parse_loop fuel (pos + 1) (pos + 2) (add_address p (addr, some priority))
            ]
          ]
          else if b
          then parse_loop fuel (idx + 2) (idx + 1) (add_address p (host, none))
          else parse_loop fuel (idx + 1) last p)
  byte_step idx last c b host h r = elim (Bool-cases (c == b'(')) [
    | inl e ↦ rw e (
        paren_step idx (find_char b')' idx (drop idx p.uri_string))
          (λ k x. (find_char_le b')' idx (drop idx p.uri_string) k x).0) h r)
    | inr e ↦ rw e (host_step idx last b host h r)
  ]

  char_step :
      (idx last : ℕ) (o : Option ℕ) (host : Bytes)
      → p.end + 1 < idx + suc fuel
      → InRange p.list_of_addresses
      → Good (elim o [
        | some c ↦
            if c == b'('
            then elim (find_char b')' idx (drop idx p.uri_string)) [
              | none ↦ failed none
              | some pos ↦ elim (round_token (substr idx (pos - idx + 1) p.uri_string)) [
                | bad_token ↦ failed none
                | out_of_range ↦ failed (some prio_values_not_inrange)
                | token addr priority ↦
                    parse_loop fuel (pos + 1) (pos + 2) (add_address p (addr, some priority))
              ]
            ]
            else if (c == b',' || idx == p.end) && ltb last idx
            then parse_loop fuel (idx + 2) (idx + 1) (add_address p (host, none))
            else parse_loop fuel (idx + 1) last p
        | none ↦ parse_loop fuel (idx + 1) last p
      ])
  char_step idx last none host h r = ih (idx + 1) last p (omega arith) r
  char_step idx last (some c) host h r =
      byte_step idx last c ((c == b',' || idx == p.end) && ltb last idx) host h r

parse_loop-Good :
    (fuel idx last : ℕ) (p : Parser)
    → p.end + 1 < idx + fuel
    → InRange p.list_of_addresses
    → Good (parse_loop fuel idx last p)
unfolding parse_loop
parse_loop-Good zero idx last p h r = let ended : ltb p.end idx ≡ true = ground arith in rw ended r
parse_loop-Good (suc fuel) idx last p h r = elim (Bool-cases (ltb p.end idx)) [
  | inl e ↦ rw e r
  | inr e ↦
      rw e (char_step fuel p (parse_loop-Good fuel) idx last (get_elem? p.uri_string idx) _ h r)
]

-- The loop has ended, and the addresses stand by descending priority, from 100 down.
abbrev pub IsOrdered : Option Parsed → Type 0
IsOrdered none = ⊥
IsOrdered (some (es, r)) = Descends 100 es

finish-IsOrdered : (s : Scanned) → Good s → IsOrdered (finish s)
unfolding finish
finish-IsOrdered (scanned p) g = with_priorities-Descends p.list_of_addresses g
finish-IsOrdered (failed x) g = tt
finish-IsOrdered out_of_fuel g = absurd g

-- A list ends within the input.
abbrev EndsBy : ℕ → ListCheck → Type 0
EndsBy n (list_until k) = k ≤ n
EndsBy n c = Unit

EndsBy-le : (m n : ℕ) (c : ListCheck) → m ≤ n → EndsBy m c → EndsBy n c
EndsBy-le m n malformed h e = tt
EndsBy-le m n single h e = tt
EndsBy-le m n (list_until k) h e = omega arith

if-EndsBy :
    (n : ℕ) (b : Bool) (x y : ListCheck) → EndsBy n x → EndsBy n y → EndsBy n (if b then x else y)
if-EndsBy n true x y h k = h
if-EndsBy n false x y h k = k

step_le : (b : Bool) (end : ℕ) → (if b then end else end + 1) ≤ end + 1
step_le true end = omega arith
step_le false end = omega arith

brackets-EndsBy :
    (depth : ℕ) (valid : Bool) (end : ℕ) (cs : Bytes)
    → EndsBy (end + length cs) (brackets depth valid end cs)
unfolding brackets
brackets-EndsBy zero true end cs = omega arith
brackets-EndsBy zero false end cs = tt
brackets-EndsBy (suc depth) valid end [] = tt
brackets-EndsBy (suc depth) valid end (c ∷ cs) =
    let n = end + suc (length cs) in
    let one = EndsBy-le (end + 1 + length cs) n in
    let closing = step_le (depth == 0) end in
    if-EndsBy n (c == b'[') _ _
      (one _ (omega arith) (brackets-EndsBy (suc (suc depth)) true (end + 1) cs))
      (if-EndsBy n (c == b']') _ _
        (EndsBy-le _ n _ (omega arith)
          (brackets-EndsBy depth valid (if depth == 0 then end else end + 1) cs))
        (if-EndsBy n (c == b',' || (c == b'(' || c == b')')) _ _
          (one _ (omega arith) (brackets-EndsBy (suc depth) true (end + 1) cs))
          (one _ (omega arith) (brackets-EndsBy (suc depth) valid (end + 1) cs))))

-- What the constructor makes fits the fuel of `parse`.
abbrev Fits : Parser → Type 0
Fits p = (p.end + 1 < p.beg + suc (suc (length p.uri_string))) × InRange p.list_of_addresses

parser_of-Fits :
    (uri : Bytes) (beg : ℕ) (c : ListCheck)
    → EndsBy (beg + 1 + length uri) c
    → Fits (parser_of uri beg c)
parser_of-Fits uri beg malformed e = (omega arith, tt)
parser_of-Fits uri beg single e = (omega arith, (omega arith, tt))
parser_of-Fits uri beg (list_until k) e = (omega arith, tt)

list_after-EndsBy :
    (uri : Bytes) (at : ℕ) → EndsBy (at + 1 + 1 + length uri) (list_after uri (some at))
unfolding list_after
list_after-EndsBy uri at =
    let n = length-drop {0} (at + 1 + 1) uri in
    EndsBy-le (at + 1 + 1 + length (drop (at + 1 + 1) uri)) _ _ (omega arith) (
      brackets-EndsBy (at_bracket (get_elem? uri (at + 1))) false (at + 1 + 1)
        (drop (at + 1 + 1) uri))

parser_at-Fits : (uri : Bytes) (o : Option ℕ) → find_char b'@' 0 uri ≡ o → Fits (parser_at uri o)
unfolding parser_at contains_list_of_url
parser_at-Fits uri none e = (omega arith, tt)
parser_at-Fits uri (some at) e =
    parser_of-Fits uri (at + 1) (list_after uri (find_char b'@' 0 uri)) (
      subst (λ (o : Option ℕ). EndsBy (at + 1 + 1 + length uri) (list_after uri o)) (sym e)
        (list_after-EndsBy uri at))

parse-Fits : (p : Parser) → Fits p → IsOrdered (parse p)
unfolding parse
parse-Fits p (h, r) =
    finish-IsOrdered (parse_loop (suc (suc (length p.uri_string))) p.beg p.beg p)
      (parse_loop-Good (suc (suc (length p.uri_string))) p.beg p.beg p h r)

-- The addresses that a connection string names come by descending priority, none above 100, and
-- the parser ends on every string.
pub parse-IsOrdered : (uri : Bytes) → IsOrdered (parse (parser uri))
unfolding parser
parse-IsOrdered uri =
    let s = keep (λ c. not (is_space c)) uri in
    parse-Fits (parser_at s (find_char b'@' 0 s)) (parser_at-Fits s (find_char b'@' 0 s) refl)
