-- ===== src/Connect/Addresses.antt =====
-- The addresses of a connection string, the class list_of_addresses_parser of
-- xmysqlnd/xmysqlnd_session.cc, and the failover of connect_session over them. An index is a
-- number and `uri[i]` is `get_elem?`; the loop of `parse` runs on fuel, a step for each byte.
-- A priority is `none` where the source has -1.
pub mod Scan
pub mod Order
pub mod Loop
pub mod Failover
pub mod Tests
use pecl_database_mysql_xdev.Common.{
  ℕ, zero, suc, ◌+◌, ◌-◌, ltb, leb, ◌==◌, Bool, true, false, not, ◌&&◌, ◌||◌, if◌then◌else◌, List,
  [], ◌∷◌, ◌++◌, Option, none, some, Result, ok, err, ◌>>=◌, Bytes, length, get_elem?, take, drop,
  keep, is_space,
}
use Scan.{
  ListCheck, malformed, single, list_until, find_char, contains_list_of_url, Entry, substr,
  RoundToken, bad_token, out_of_range, token, round_token,
}

-- The exceptions that are raised for PHP: prio_values_not_inrange, invalid_prio_assignment.
pub data Raised : Type 0 where
  prio_values_not_inrange invalid_prio_assignment : Raised

pub record Parser : Type 0 where
  pub beg : ℕ
  pub end : ℕ
  pub uri_string : Bytes
  pub unformatted_uri : Bytes
  pub list_of_addresses : List Entry

-- A parser that `invalidate` has told not to parse.
abbrev pub invalidated : List Entry → Parser
invalidated entries = record {
  beg = 1;
  end = 0;
  uri_string = [];
  unformatted_uri = [];
  list_of_addresses = entries;
}

abbrev pub parser_of : Bytes → ℕ → ListCheck → Parser
parser_of uri beg malformed = invalidated []
parser_of uri beg single = invalidated ((uri, some 100) ∷ [])
parser_of uri beg (list_until end) = record {
  beg = beg + 1;
  end = end - 1;
  uri_string = uri;
  unformatted_uri = take beg uri ++ drop (beg + (end - beg + 1)) uri;
  list_of_addresses = [];
}

unfoldable pub parser_at : Bytes → Option ℕ → Parser
unfolding contains_list_of_url
parser_at uri none = invalidated []
parser_at uri (some at) = parser_of uri (at + 1) (contains_list_of_url uri)

-- The constructor.
unfoldable pub parser : Bytes → Parser
unfolding find_char parser_at
parser input = let uri = keep (λ c. not (is_space c)) input in parser_at uri (find_char b'@' 0 uri)

unfoldable pub add_address : Parser → Entry → Parser
add_address p (addr, priority) =
    let at = p.beg - 1 in
    record {
      beg = p.beg;
      end = p.end;
      uri_string = p.uri_string;
      unformatted_uri = p.unformatted_uri;
      list_of_addresses =
          p.list_of_addresses
          ++ (take at p.unformatted_uri ++ addr ++ drop at p.unformatted_uri, priority) ∷ [];
    }

-- What the loop of `parse` leaves: the parser, or that it has failed, with what was raised.
pub data Scanned : Type 0 where
  scanned : Parser → Scanned
  failed : Option Raised → Scanned
  out_of_fuel : Scanned

-- The loop, at index `idx`.
unfoldable pub parse_loop : ℕ → ℕ → ℕ → Parser → Scanned
unfolding add_address round_token find_char
parse_loop zero idx last_pos p = if ltb p.end idx then scanned p else out_of_fuel
parse_loop (suc fuel) idx last_pos p =
    let ended = idx == p.end in
    let host = substr last_pos (idx - last_pos + (if ended then 1 else 0)) p.uri_string in
    let next = parse_loop fuel (idx + 1) last_pos p in
    let separated = parse_loop fuel (idx + 2) (idx + 1) (add_address p (host, none)) in
    if ltb p.end idx then scanned p else elim (get_elem? p.uri_string idx) [
      | some c ↦
          if c == b'('
          then elim (find_char b')' idx (drop idx p.uri_string)) [
            | none ↦ failed none
            | some pos ↦ elim (round_token (substr idx (pos - idx + 1) p.uri_string)) [
              | bad_token ↦ failed none
              | out_of_range ↦ failed (some prio_values_not_inrange)
              | token addr priority ↦
                  parse_loop fuel (pos + 1) (pos + 2) (add_address p (addr, some priority))
            ]
          ]
          else if (c == b',' || ended) && ltb last_pos idx
          then separated
          else next
      | none ↦ next
    ]

-- `prio_cnt`.
abbrev pub prio_cnt : List Entry → ℕ
prio_cnt [] = 0
prio_cnt ((addr, none) ∷ es) = prio_cnt es
prio_cnt ((addr, some p) ∷ es) = suc (prio_cnt es)

abbrev pub priority : Entry → ℕ
priority (addr, none) = 0
priority (addr, some p) = p

-- `std::max(current_prio--, 0)` for each entry.
unfoldable pub default_priorities : ℕ → List Entry → List Entry
default_priorities current [] = []
default_priorities current ((addr, p) ∷ es) =
    (addr, some current) ∷ default_priorities (current - 1) es

-- `std::sort` by descending priority.
abbrev pub insert : Entry → List Entry → List Entry
insert e [] = e ∷ []
insert e (f ∷ es) =
    let rest = insert e es in if ltb (priority e) (priority f) then f ∷ rest else e ∷ f ∷ es

unfoldable pub sort : List Entry → List Entry
sort [] = []
sort (e ∷ es) = insert e (sort es)

-- What `parse` returns, with what it raised.
abbrev pub Parsed : Type 0
Parsed = List Entry × Option Raised

unfoldable pub with_priorities : List Entry → Parsed
unfolding default_priorities sort
with_priorities entries =
    if prio_cnt entries == 0
    then (default_priorities 100 entries, none)
    else if prio_cnt entries == length entries
    then (sort entries, none)
    else ([], some invalid_prio_assignment)

unfoldable pub finish : Scanned → Option Parsed
unfolding with_priorities
finish out_of_fuel = none
finish (failed r) = some ([], r)
finish (scanned p) = some (with_priorities p.list_of_addresses)

-- `none` stands for a loop that did not end in its fuel.
unfoldable pub parse : Parser → Option Parsed
unfolding parse_loop finish
parse p = finish (parse_loop (suc (suc (length p.uri_string))) p.beg p.beg p)
