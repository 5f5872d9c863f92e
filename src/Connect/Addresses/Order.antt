-- ===== src/Connect/Addresses/Order.antt =====
-- The order of the addresses that list_of_addresses_parser::parse returns.
use pecl_database_mysql_xdev.Common.{
  ℕ, ◌+◌, ◌-◌, ◌≤◌, ◌≡◌, ltb, leb, ◌==◌, Bool-cases, true, false, ◌||◌, inl, inr, List, [], ◌∷◌,
  ◌++◌, Option, none, some, Bytes, codes, length, drop, arith,
}
use pecl_database_mysql_xdev.Connect.Addresses.Scan.{
  Entry, RoundToken, token, side, ranged, second_side, first_side, sides, round_token, trimmed,
  atoi, find,
}
use pecl_database_mysql_xdev.Connect.Addresses.{
  Scanned, scanned, failed, out_of_fuel, prio_cnt, default_priorities, insert, sort,
  with_priorities,
}

-- Priorities that never rise and are at most `b`.
abbrev pub Descends : ℕ → List Entry → Type 0
Descends b [] = Unit
Descends b ((addr, none) ∷ es) = ⊥
Descends b ((addr, some p) ∷ es) = (p ≤ b) × Descends p es

-- A priority is missing or at most 100.
abbrev pub InRange : List Entry → Type 0
InRange [] = Unit
InRange ((addr, none) ∷ es) = InRange es
InRange ((addr, some p) ∷ es) = (p ≤ 100) × InRange es

insert-Descends :
    (addr : Bytes) (p b : ℕ) (es : List Entry)
    → p ≤ b
    → Descends b es
    → Descends b (insert (addr, some p) es)
insert-Descends addr p b [] h d = (h, tt)
insert-Descends addr p b ((a, none) ∷ es) h d = absurd d
insert-Descends addr p b ((a, some q) ∷ es) h (le, d) = elim (Bool-cases (ltb p q)) [
  | inl e ↦ rw e (le, insert-Descends addr p q es (ground arith) d)
  | inr e ↦ rw e (h, (ground arith, d))
]

prio_cnt_le : (es : List Entry) → prio_cnt es ≤ length es
prio_cnt_le [] = omega arith
prio_cnt_le ((a, none) ∷ es) = omega (arith, prio_cnt_le es)
prio_cnt_le ((a, some p) ∷ es) = omega (arith, prio_cnt_le es)

sort-Descends : (es : List Entry) → prio_cnt es ≡ length es → InRange es → Descends 100 (sort es)
unfolding sort
sort-Descends [] h r = tt
sort-Descends ((a, none) ∷ es) h r = absurd (omega (arith, prio_cnt_le es))
sort-Descends ((a, some p) ∷ es) h (le, r) =
    insert-Descends a p 100 (sort es) le (sort-Descends es (omega arith) r)

default_priorities-Descends :
    (b current : ℕ) (es : List Entry) → current ≤ b → Descends b (default_priorities current es)
unfolding default_priorities
default_priorities-Descends b current [] h = tt
default_priorities-Descends b current ((a, p) ∷ es) h =
    (h, default_priorities-Descends current (current - 1) es (omega arith))

pub with_priorities-Descends : (es : List Entry) → InRange es → Descends 100 (with_priorities es).0
unfolding with_priorities
with_priorities-Descends es r = elim (Bool-cases (prio_cnt es == 0)) [
  | inl e ↦ rw e (default_priorities-Descends 100 100 es (omega arith))
  | inr e ↦ elim (Bool-cases (prio_cnt es == length es)) [
    | inl k ↦ rw (e, k) (sort-Descends es (ground arith) r)
    | inr k ↦ rw (e, k) tt
  ]
]

-- A round token names a priority of at most 100.
abbrev pub InToken : RoundToken → Type 0
InToken (token addr n) = n ≤ 100
InToken t = Unit

ranged-InToken : (addr : Bytes) (o : Option ℕ) → InToken (ranged addr o)
ranged-InToken addr none = tt
ranged-InToken addr (some n) = elim (Bool-cases (ltb 100 n)) [
  | inl e ↦ rw e tt
  | inr e ↦ rw e (ground arith)
]

second_side-InToken : (s addr : Bytes) (o : Option (ℕ × ℕ × ℕ)) → InToken (second_side s addr o)
second_side-InToken s addr none = tt
second_side-InToken s addr (some (start, end, idx)) = elim (Bool-cases (ltb end start)) [
  | inl e ↦ rw e tt
  | inr e ↦ rw e (ranged-InToken addr (atoi (trimmed start end s)))
]

first_side-InToken : (s : Bytes) (prio : ℕ) (o : Option (ℕ × ℕ × ℕ)) → InToken (first_side s prio o)
unfolding first_side
first_side-InToken s prio none = tt
first_side-InToken s prio (some (start, end, idx)) =
    elim (Bool-cases (leb prio idx || ltb end start)) [
      | inl e ↦ rw e tt
      | inr e ↦ rw e (second_side-InToken s (trimmed start end s) (side true 0 prio (drop prio s)))
    ]

sides-InToken : (s : Bytes) (a p : Option ℕ) → InToken (sides s a p)
unfolding sides
sides-InToken s none p = tt
sides-InToken s (some a) none = tt
sides-InToken s (some a) (some p) = elim (Bool-cases (ltb p a)) [
  | inl e ↦ rw e tt
  | inr e ↦ rw e (first_side-InToken s (p + 8) (side false 0 (a + 7) (drop (a + 7) s)))
]

pub round_token-InToken : (s : Bytes) → InToken (round_token s)
unfolding round_token
round_token-InToken s = sides-InToken s (find (codes "address") 0 s) (find (codes "priority") 0 s)

pub InRange-append : (es fs : List Entry) → InRange es → InRange fs → InRange (es ++ fs)
InRange-append [] fs r t = t
InRange-append ((a, none) ∷ es) fs r t = InRange-append es fs r t
InRange-append ((a, some p) ∷ es) fs (le, r) t = (le, InRange-append es fs r t)

-- The loop has not run out of fuel, and what it has added is in range.
abbrev pub Good : Scanned → Type 0
Good (scanned p) = InRange p.list_of_addresses
Good (failed r) = Unit
Good out_of_fuel = ⊥
