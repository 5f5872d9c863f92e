-- ===== src/Connect/Addresses/Scan.antt =====
-- The brackets of a list of addresses and its round tokens, of xmysqlnd/xmysqlnd_session.cc.
use pecl_database_mysql_xdev.Common.{
  ℕ, zero, suc, ◌+◌, ◌-◌, ◌*◌, ltb, leb, ◌==◌, Bool, true, false, not, ◌&&◌, ◌||◌, if◌then◌else◌,
  [], ◌∷◌, Option, none, some, Bytes, codes, get_elem?, take, drop, keep, is_digit,
}

-- A URI with its priority, an element of `vec_of_addresses`.
abbrev pub Entry : Type 0
Entry = Bytes × Option ℕ

abbrev pub substr : ℕ → ℕ → Bytes → Bytes
substr pos n s = take n (drop pos s)

-- `find_first_of` a byte: its index, counted from `i`.
unfoldable pub find_char : ℕ → ℕ → Bytes → Option ℕ
find_char b i [] = none
find_char b i (c ∷ cs) = let rest = find_char b (i + 1) cs in if c == b then some i else rest

-- What `contains_list_of_url` returns: -1, 0, or the index of the closing bracket.
pub data ListCheck : Type 0 where
  malformed single : ListCheck
  list_until : ℕ → ListCheck

-- The loop over the brackets: `depth` are open, the list is valid or not, `end` is the index.
unfoldable pub brackets : ℕ → Bool → ℕ → Bytes → ListCheck
brackets zero valid end cs = if valid then list_until end else single
brackets (suc depth) valid end [] = malformed
brackets (suc depth) valid end (c ∷ cs) =
    let deeper = brackets (suc (suc depth)) true (end + 1) cs in
    let closed = brackets depth valid (if depth == 0 then end else end + 1) cs in
    let listed = brackets (suc depth) true (end + 1) cs in
    let other = brackets (suc depth) valid (end + 1) cs in
    if c == b'['
    then deeper
    else if c == b']'
    then closed
    else if c == b',' || (c == b'(' || c == b')')
    then listed
    else other

abbrev pub at_bracket : Option ℕ → ℕ
at_bracket none = 0
at_bracket (some c) = if c == b'[' then 1 else 0

unfoldable pub list_after : Bytes → Option ℕ → ListCheck
unfolding brackets
list_after uri none = malformed
list_after uri (some at) =
    let beg = at + 1 in
    brackets (at_bracket (get_elem? uri beg)) false (beg + 1) (drop (beg + 1) uri)

unfoldable pub contains_list_of_url : Bytes → ListCheck
unfolding find_char list_after
contains_list_of_url uri = list_after uri (find_char b'@' 0 uri)

-- `find` of a word: the index of the first match.
abbrev pub is_prefix : Bytes → Bytes → Bool
is_prefix [] s = true
is_prefix (c ∷ w) [] = false
is_prefix (c ∷ w) (d ∷ s) = (c == d) && is_prefix w s

unfoldable pub find : Bytes → ℕ → Bytes → Option ℕ
find w i [] = if is_prefix w [] then some i else none
find w i (c ∷ cs) = let rest = find w (i + 1) cs in if is_prefix w (c ∷ cs) then some i else rest

-- One side of a round token, from index `idx` on: `start` is behind its `=`, 0 before that. The
-- result is where it starts, where it ends, and the index of the loop; or it is malformed.
unfoldable pub side : Bool → ℕ → ℕ → Bytes → Option (ℕ × ℕ × ℕ)
side second start idx [] = some (start, 0, idx)
side second start idx (c ∷ cs) =
    let behind = side second (idx + 1) (idx + 1) cs in
    let next = side second start (idx + 1) cs in
    if c == b'='
    then if start == 0 then behind else none
    else if c == b',' || (second && (c == b')'))
    then some (start, idx, idx)
    else next

-- What `parse_round_token` reads: an address and a priority from 0 to 100.
pub data RoundToken : Type 0 where
  bad_token out_of_range : RoundToken
  token : Bytes → ℕ → RoundToken

abbrev pub digits : ℕ → Bytes → ℕ
digits n [] = n
digits n (c ∷ cs) = if is_digit c then digits (n * 10 + (c - b'0')) cs else n

-- `atoi` of a text without blanks; a negative number is below any priority.
abbrev pub atoi : Bytes → Option ℕ
atoi [] = some 0
atoi (c ∷ cs) =
    if c == b'-'
    then if digits 0 cs == 0 then some 0 else none
    else if c == b'+'
    then some (digits 0 cs)
    else some (digits 0 (c ∷ cs))

abbrev pub ranged : Bytes → Option ℕ → RoundToken
ranged addr none = out_of_range
ranged addr (some n) = if ltb 100 n then out_of_range else token addr n

abbrev pub trimmed : ℕ → ℕ → Bytes → Bytes
trimmed start end s = keep (λ c. not (c == b' ') && not (c == 9)) (substr start (end - start) s)

-- The second side, once the first is `addr`.
abbrev pub second_side : Bytes → Bytes → Option (ℕ × ℕ × ℕ) → RoundToken
second_side s addr none = bad_token
second_side s addr (some (start, end, idx)) =
    if ltb end start then bad_token else ranged addr (atoi (trimmed start end s))

unfoldable pub first_side : Bytes → ℕ → Option (ℕ × ℕ × ℕ) → RoundToken
unfolding side
first_side s prio_beg none = bad_token
first_side s prio_beg (some (start, end, idx)) =
    if leb prio_beg idx || ltb end start
    then bad_token
    else second_side s (trimmed start end s) (side true 0 prio_beg (drop prio_beg s))

unfoldable pub sides : Bytes → Option ℕ → Option ℕ → RoundToken
unfolding first_side
sides s none prio = bad_token
sides s (some addr) none = bad_token
sides s (some addr) (some prio) =
    if ltb prio addr
    then bad_token
    else first_side s (prio + 8) (side false 0 (addr + 7) (drop (addr + 7) s))

unfoldable pub round_token : Bytes → RoundToken
unfolding sides find
round_token s = sides s (find (codes "address") 0 s) (find (codes "priority") 0 s)
