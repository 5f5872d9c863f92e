-- ===== src/Pool/Handles.antt =====
-- Lists of addresses: the sets of connections of the pool of mysqlx_client.cc.
use pecl_database_mysql_xdev.Common.{
  ℕ, ◌+◌, ◌≤◌, ◌<◌, ◌≡◌, refl, true, false, ◌||◌, ◌==◌, List, [], ◌∷◌, ◌++◌, length, contains, All,
  arith,
}
use pecl_database_mysql_xdev.Pool.{Idle, remove, idle_handles, drop_expired}

abbrev pub Below : ℕ → List ℕ → Type 0
Below n = All (λ h. h < n)

abbrev pub Distinct : List ℕ → Type 0
Distinct [] = Unit
Distinct (x ∷ xs) = (contains xs x ≡ false) × Distinct xs

-- No entry of the first list stands in the second.
abbrev pub Apart : List ℕ → List ℕ → Type 0
Apart [] ys = Unit
Apart (x ∷ xs) ys = (contains ys x ≡ false) × Apart xs ys

pub Below-mono : (m n : ℕ) (xs : List ℕ) → m ≤ n → Below m xs → Below n xs
Below-mono m n [] h b = tt
Below-mono m n (x ∷ xs) h b = (omega arith, Below-mono m n xs h b.1)

pub contains-Below : (n h : ℕ) (xs : List ℕ) → Below n xs → n ≤ h → contains xs h ≡ false
contains-Below n h [] b le = refl
contains-Below n h (x ∷ xs) b le = ground (arith, contains-Below n h xs b.1 le)

pub contains-remove :
    (h k : ℕ) (xs : List ℕ) → contains xs k ≡ false → contains (remove h xs) k ≡ false
contains-remove h k [] e = refl
contains-remove h k (x ∷ xs) e = ground (arith, contains-remove h k xs)

pub remove-Distinct : (h : ℕ) (xs : List ℕ) → Distinct xs → Distinct (remove h xs)
remove-Distinct h [] d = tt
remove-Distinct h (x ∷ xs) d = ground (arith, contains-remove h x xs d.0, remove-Distinct h xs d.1)

pub remove-Below : (h n : ℕ) (xs : List ℕ) → Below n xs → Below n (remove h xs)
remove-Below h n [] b = tt
remove-Below h n (x ∷ xs) b = ground (arith, remove-Below h n xs b.1)

pub length-remove :
    (h : ℕ) (xs : List ℕ) → contains xs h ≡ true → length (remove h xs) + 1 ≡ length xs
length-remove h [] e = cc
length-remove h (x ∷ xs) e = ground (arith, length-remove h xs)

pub contains-remove_self : (h : ℕ) (xs : List ℕ) → Distinct xs → contains (remove h xs) h ≡ false
contains-remove_self h [] d = refl
contains-remove_self h (x ∷ xs) d = ground (arith, contains-remove_self h xs d.1)

pub Apart-remove : (h : ℕ) (xs ys : List ℕ) → Apart xs ys → Apart xs (remove h ys)
Apart-remove h [] ys a = tt
Apart-remove h (x ∷ xs) ys a = (contains-remove h x ys a.0, Apart-remove h xs ys a.1)

pub Apart-cons : (h : ℕ) (xs ys : List ℕ) → Apart xs ys → contains xs h ≡ false → Apart xs (h ∷ ys)
Apart-cons h [] ys a e = tt
Apart-cons h (x ∷ xs) ys a e = ground (arith, Apart-cons h xs ys a.1)

module _ (e : Idle) where
  pub contains-append :
      (k : ℕ) (is : List Idle)
      → contains (idle_handles (is ++ e ∷ [])) k
        ≡ (contains (idle_handles is) k || e.connection == k)
  contains-append k [] = ground arith
  contains-append k (i ∷ is) = ground (arith, contains-append k is)

  pub append-Distinct :
      (is : List Idle)
      → Distinct (idle_handles is)
      → contains (idle_handles is) e.connection ≡ false
      → Distinct (idle_handles (is ++ e ∷ []))
  append-Distinct [] d h = (refl, tt)
  append-Distinct (i ∷ is) d h =
      ground (arith, append-Distinct is d.1, contains-append i.connection is)

  pub append-Apart :
      (is : List Idle) (ys : List ℕ)
      → Apart (idle_handles is) ys
      → contains ys e.connection ≡ false
      → Apart (idle_handles (is ++ e ∷ [])) ys
  append-Apart [] ys a h = (h, tt)
  append-Apart (i ∷ is) ys a h = (a.0, append-Apart is ys a.1 h)

  pub append-Below :
      (n : ℕ) (is : List Idle)
      → Below n (idle_handles is)
      → e.connection < n
      → Below n (idle_handles (is ++ e ∷ []))
  append-Below n [] b h = (h, tt)
  append-Below n (i ∷ is) b h = (b.0, append-Below n is b.1 h)

-- What is dropped from the front takes nothing else away.
pub drop_expired-valid :
    (now n : ℕ) (is : List Idle) (ys : List ℕ)
    → Distinct (idle_handles is)
    → Apart (idle_handles is) ys
    → Below n (idle_handles is)
    → Distinct (idle_handles (drop_expired now is))
      × Apart (idle_handles (drop_expired now is)) ys
      × Below n (idle_handles (drop_expired now is))
      × (length (drop_expired now is) ≤ length is)
unfolding drop_expired
drop_expired-valid now n [] ys d a b = (tt, tt, tt, omega arith)
drop_expired-valid now n (i ∷ is) ys d a b =
    ground (arith, drop_expired-valid now n is ys d.1 a.1 b.1)
