-- ===== src/Rowset/Delivery.antt =====
-- A forward row set of xmysqlnd/xmysqlnd_rowset_fwd.cc gives every row once, in order.
use pecl_database_mysql_xdev.Common.{
  ℕ, zero, suc, ◌+◌, ◌-◌, ◌≤◌, ◌<◌, ◌≡◌, ◌≢◌, refl, sym, subst, ap, ◌∙◌, ◌==◌, Bool, Bool-cases,
  true, false, ◌&&◌, inl, inr, if◌then◌else◌, List, [], ◌∷◌, ◌++◌, append_assoc, Option, some,
  length, length-append, get_elem?, drop, arith,
}
use pecl_database_mysql_xdev.Rowset.{
  Rows, row_count, free_rows_contents, fetch_one, Forward, add_row, read_rows, next, fetch_current,
  eof, push_row, iterate,
}

-- The rows that are still to come: from the cursor on, and at the server.
abbrev pub remaining : Forward → List ℕ
remaining f = drop f.base.row_cursor f.base.rows ++ f.line

-- The row set has its columns' description and reads at least a row at a time; the array is large
-- enough; while there may be more rows the cursor is on a row, and otherwise none is left.
pub record IsValid (f : Forward) : Type 0 where
  pub meta : f.base.has_meta ≡ true
  pub reads : 1 ≤ f.fwd_prefetch_count
  pub grows : 1 ≤ f.prefetch_rows
  pub fits : row_count f.base ≤ f.base.rows_allocated
  pub current : f.has_more_rows_in_set ≡ true → f.base.row_cursor < row_count f.base
  pub done : f.has_more_rows_in_set ≡ false → f.line ≡ []

pub false≢true : false ≢ true
false≢true e = cc

-- What must hold before a read, which starts with the cursor on the first row.
pub record MayRead (f : Forward) : Type 0 where
  pub meta : f.base.has_meta ≡ true
  pub reads : 1 ≤ f.fwd_prefetch_count
  pub grows : 1 ≤ f.prefetch_rows
  pub fits : row_count f.base ≤ f.base.rows_allocated
  pub first : f.base.row_cursor ≡ 0

grown : (a c p n : ℕ) → n ≡ c + 1 → c ≤ a → 1 ≤ p → n ≤ (if a == c then a + p else a)
grown a c p n e h k = ground arith

add_row-MayRead : (row : ℕ) (f : Forward) → MayRead f → MayRead (add_row row f)
unfolding add_row
add_row-MayRead row f v =
    let n = length-append {0} f.base.rows (row ∷ []) in
    record {
      meta = v.meta;
      reads = v.reads;
      grows = v.grows;
      fits = grown f.base.rows_allocated (row_count f.base) f.prefetch_rows _ n v.fits v.grows;
      first = v.first;
    }

read_rows-IsValid :
    (counter : ℕ) (line : List ℕ) (f : Forward)
    → MayRead f
    → IsValid (read_rows counter line f)
      × ((read_rows counter line f).base.row_cursor ≡ 0)
      × ((read_rows counter line f).base.rows ++ (read_rows counter line f).line
          ≡ f.base.rows ++ line)
unfolding read_rows
read_rows-IsValid counter [] f v = (
  record {
    meta = v.meta;
    reads = v.reads;
    grows = v.grows;
    fits = v.fits;
    current = (λ e. absurd (false≢true e));
    done = (λ e. refl);
  },
  v.first,
  refl,
)
read_rows-IsValid zero (row ∷ line) f v =
    let r = read_rows-IsValid zero line (add_row row f) (add_row-MayRead row f v) in
    (r.0, r.1, r.2 ∙ append_assoc f.base.rows (row ∷ []) line)
read_rows-IsValid (suc zero) (row ∷ line) f v =
    let n = length-append {0} f.base.rows (row ∷ []) in
    let w = add_row-MayRead row f v in
    let first = v.first in
    (
      record {
        meta = v.meta;
        reads = v.reads;
        grows = v.grows;
        fits = w.fits;
        current = (λ e. omega arith);
        done = (λ e. absurd (false≢true (sym e)));
      },
      v.first,
      append_assoc f.base.rows (row ∷ []) line,
    )
read_rows-IsValid (suc (suc n)) (row ∷ line) f v =
    let r = read_rows-IsValid (suc n) line (add_row row f) (add_row-MayRead row f v) in
    (r.0, r.1, r.2 ∙ append_assoc f.base.rows (row ∷ []) line)

drop-cons :
    (n : ℕ) (xs : List ℕ)
    → n < length xs
    → (x : ℕ) × (get_elem? xs n ≡ some x) × (drop n xs ≡ x ∷ drop (suc n) xs)
drop-cons n [] h = absurd (omega arith)
drop-cons zero (x ∷ xs) h = (x, refl, refl)
drop-cons (suc n) (x ∷ xs) h = drop-cons n xs (omega arith)

drop_all : (n : ℕ) (xs : List ℕ) → length xs ≤ n → drop n xs ≡ []
drop_all zero [] h = refl
drop_all zero (x ∷ xs) h = absurd (omega arith)
drop_all (suc n) [] h = refl
drop_all (suc n) (x ∷ xs) h = drop_all n xs (omega arith)

remaining-first : (f : Forward) → f.base.row_cursor ≡ 0 → remaining f ≡ f.base.rows ++ f.line
remaining-first f e = ap (λ (n : ℕ). drop n f.base.rows ++ f.line) e

on_row : (f : Forward) → IsValid f → eof f ≡ false → f.base.row_cursor < row_count f.base
unfolding eof
on_row f v e = elim (Bool-cases f.has_more_rows_in_set) [
  | inl more ↦ v.current more
  | inr none_more ↦ ground arith
]

freed_eq :
    (f : Forward)
    → IsValid f
    → f.base.row_cursor < row_count f.base
    → free_rows_contents f.base ≡ record f.base { rows = []; row_cursor = 0 }
freed_eq f v on =
    let fits = v.fits in
    let allocated : (f.base.rows_allocated == 0) ≡ false = ground arith in
    rw (allocated, v.meta) refl

-- The row set that a read after the last row starts from.
emptied :
    (f : Forward)
    → IsValid f
    → f.base.row_cursor < row_count f.base
    → MayRead (record f { base = free_rows_contents f.base })
emptied f v on =
    subst (λ (b : Rows). MayRead (record f { base = b })) (sym (freed_eq f v on))
      (record { meta = v.meta; reads = v.reads; grows = v.grows; fits = omega arith; first = refl })

-- What `next` leaves: a valid row set with one row less to come.
abbrev Steps : Forward → Forward → Type 0
Steps f g =
    IsValid g
    × ((x : ℕ) × (fetch_one f.base f.base.row_cursor ≡ some x) × (remaining f ≡ x ∷ remaining g))

moved : (n c : ℕ) (more : Bool) → c < n → (n - c == 1 && more) ≡ false → more ≡ true → c + 1 < n
moved n c more on other h = ground arith

next-Steps : (f : Forward) → IsValid f → eof f ≡ false → Steps f (next f)
unfolding next
next-Steps f v e =
    let on = on_row f v e in
    let hit = drop-cons f.base.row_cursor f.base.rows on in
    elim (Bool-cases (row_count f.base - f.base.row_cursor == 1 && f.has_more_rows_in_set)) [
      | inl last ↦
          let r =
            read_rows-IsValid f.fwd_prefetch_count f.line
              (record f { base = free_rows_contents f.base }) (emptied f v on) in
          let g =
            read_rows f.fwd_prefetch_count f.line (record f { base = free_rows_contents f.base }) in
          let refilled : remaining g ≡ f.line =
            remaining-first g r.1 ∙ (r.2 ∙ ap (λ (b : Rows). b.rows ++ f.line) (freed_eq f v on)) in
          let used_up : drop (suc f.base.row_cursor) f.base.rows ≡ [] =
            drop_all (suc f.base.row_cursor) f.base.rows (ground arith) in
          rw last (
            r.0,
            (
              hit.0,
              hit.1,
              ap (λ (l : List ℕ). l ++ f.line) hit.2
                  ∙ (ap (λ (l : List ℕ). hit.0 ∷ (l ++ f.line)) used_up
                      ∙ ap (λ (l : List ℕ). hit.0 ∷ l) (sym refilled)),
            ),
          )
      | inr other ↦
          let up : suc f.base.row_cursor ≡ f.base.row_cursor + 1 = omega arith in
          rw other (
            record {
              meta = v.meta;
              reads = v.reads;
              grows = v.grows;
              fits = v.fits;
              current = (λ more.
                  moved (row_count f.base) f.base.row_cursor f.has_more_rows_in_set on other more);
              done = v.done;
            },
            (
              hit.0,
              hit.1,
              ap (λ (l : List ℕ). l ++ f.line) hit.2
                  ∙ ap (λ (n : ℕ). hit.0 ∷ (drop n f.base.rows ++ f.line)) up,
            ),
          )
    ]

fetched-IsValid : (f : Forward) → IsValid f → IsValid (fetch_current f).1
unfolding fetch_current
fetched-IsValid f v = record {
  meta = v.meta;
  reads = v.reads;
  grows = v.grows;
  fits = v.fits;
  current = v.current;
  done = v.done;
}

eof-remaining : (f : Forward) → IsValid f → eof f ≡ true → remaining f ≡ []
unfolding eof
eof-remaining f v e = elim (Bool-cases f.has_more_rows_in_set) [
  | inl more ↦ let on = v.current more in absurd (ground arith)
  | inr no_more ↦ rw (drop_all f.base.row_cursor f.base.rows (ground arith), v.done no_more) refl
]

length-nil : (l : List ℕ) → length l ≤ 0 → [] ≡ l
length-nil [] h = refl
length-nil (x ∷ l) h = absurd (omega arith)

-- A script that fetches the current row and goes to the next one until the end of a forward row
-- set gets every row once and in order, however many rows a read brings.
pub iterate-remaining :
    (fuel : ℕ) (f : Forward)
    → IsValid f
    → length (remaining f) ≤ fuel
    → iterate fuel f ≡ remaining f
unfolding iterate fetch_current eof
iterate-remaining zero f v h = length-nil (remaining f) h
iterate-remaining (suc fuel) f v h = elim (Bool-cases (eof f)) [
  | inl e ↦ rw e (sym (eof-remaining f v e))
  | inr e ↦
      let g = (fetch_current f).1 in
      let s = next-Steps g (fetched-IsValid f v) e in
      let shorter = ap (λ (l : List ℕ). length l) s.1.2 in
      let ih = iterate-remaining fuel (next g) s.0 (omega arith) in
      rw e (
        ap (λ (o : Option ℕ). push_row o (iterate fuel (next g))) s.1.1
        ∙ (ap (λ (l : List ℕ). s.1.0 ∷ l) ih ∙ sym s.1.2))
]
