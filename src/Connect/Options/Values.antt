-- ===== src/Connect/Options/Values.antt =====
-- The values of connection options: the private helpers of Extract_client_option in
-- xmysqlnd/xmysqlnd_session.cc, and util/strings.cc and util/string_utils.cc.
use pecl_database_mysql_xdev.Common.{
  ℕ, zero, suc, ◌+◌, ◌-◌, ◌*◌, ◌^◌, ltb, leb, ◌==◌, Bool, true, false, ◌&&◌, ◌||◌, if◌then◌else◌,
  List, [], ◌∷◌, ◌++◌, Option, none, some, Bytes, iequals, is_space, is_digit, is_alnum, ℤ, pos,
  negsuc,
}

-- `single_separator_split`: the parts around each separator; none of an empty text.
unfoldable pub split_from : ℕ → Bytes → Bytes → List Bytes
split_from sep part [] = part ∷ []
split_from sep part (c ∷ cs) =
    let parts = split_from sep [] cs in
    let longer = split_from sep (part ++ c ∷ []) cs in if c == sep then part ∷ parts else longer

unfoldable pub single_separator_split : ℕ → Bytes → List Bytes
unfolding split_from
single_separator_split sep [] = []
single_separator_split sep (c ∷ cs) = split_from sep [] (c ∷ cs)

abbrev pub is_empty {ℓ} : {A : Type ℓ} → List A → Bool
is_empty [] = true
is_empty (x ∷ xs) = false

-- `boost::trim`.
abbrev pub trim_left : Bytes → Bytes
trim_left [] = []
trim_left (c ∷ cs) = if is_space c then trim_left cs else c ∷ cs

abbrev pub trim_right : Bytes → Bytes
trim_right [] = []
trim_right (c ∷ cs) =
    let rest = trim_right cs in if is_space c && is_empty rest then [] else c ∷ rest

abbrev pub trim_all : List Bytes → List Bytes
trim_all [] = []
trim_all (s ∷ ss) = trim_right (trim_left s) ∷ trim_all ss

-- `back` and what stands before it.
abbrev pub last_is : ℕ → Bytes → Bool
last_is b [] = false
last_is b (c ∷ []) = c == b
last_is b (c ∷ d ∷ cs) = last_is b (d ∷ cs)

abbrev pub but_last : Bytes → Bytes
but_last [] = []
but_last (c ∷ []) = []
but_last (c ∷ d ∷ cs) = c ∷ but_last (d ∷ cs)

unfoldable pub parse_single_or_array : Bytes → List Bytes
unfolding single_separator_split
parse_single_or_array [] = []
parse_single_or_array (c ∷ cs) =
    if c == b'[' && last_is b']' (c ∷ cs)
    then trim_all (single_separator_split b',' (but_last cs))
    else trim_all ((c ∷ cs) ∷ [])

-- `std::stoi`: blanks, a sign, digits; none where there is no digit or the number is no `int`.
abbrev pub number : ℕ → Bytes → ℕ
number n [] = n
number n (c ∷ cs) = if is_digit c then number (n * 10 + (c - b'0')) cs else n

abbrev pub starts_with_digit : Bytes → Bool
starts_with_digit [] = false
starts_with_digit (c ∷ cs) = is_digit c

abbrev pub negate : ℕ → ℤ
negate zero = pos 0
negate (suc n) = negsuc n

abbrev pub positive : Bytes → Option ℤ
positive s =
    if starts_with_digit s && ltb (number 0 s) (2 ^ 31) then some (pos (number 0 s)) else none

abbrev pub negative : Bytes → Option ℤ
negative s =
    if starts_with_digit s && leb (number 0 s) (2 ^ 31) then some (negate (number 0 s)) else none

abbrev pub signed : Bytes → Option ℤ
signed [] = none
signed (c ∷ cs) =
    if c == b'-' then negative cs else if c == b'+' then positive cs else positive (c ∷ cs)

unfoldable pub to_int : Bytes → Option ℤ
to_int s = signed (trim_left s)

-- The lookup in a map that compares by `util::iless`.
abbrev pub find_name {ℓ} : {A : Type ℓ} → Bytes → List (Bytes × A) → Option A
find_name name [] = none
find_name name ((n, a) ∷ rest) = if iequals n name then some a else find_name name rest

-- `std::all_of` the bytes of an algorithm's name.
abbrev pub is_algorithm_name : Bytes → Bool
is_algorithm_name [] = true
is_algorithm_name (c ∷ cs) = (is_alnum c || c == b'_') && is_algorithm_name cs

abbrev pub all_algorithm_names : List Bytes → Bool
all_algorithm_names [] = true
all_algorithm_names (n ∷ ns) = is_algorithm_name n && all_algorithm_names ns
