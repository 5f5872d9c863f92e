-- ===== src/Rowset/Buffered.antt =====
-- The row set that holds all rows, xmysqlnd/xmysqlnd_rowset_buffered.cc.
use pecl_database_mysql_xdev.Common.{
  ℕ, zero, suc, ◌+◌, ◌*◌, ◌/◌, ◌≤◌, ◌≡◌, refl, sym, subst, ap, ◌∙◌, leb, ◌==◌, Bool, Bool-cases,
  true, if◌then◌else◌, inl, inr, List, [], ◌∷◌, ◌++◌, append_assoc, append-nil, Option, some,
  Status, pass, fail, length, length-append, get_elem?, arith,
}
use pecl_database_mysql_xdev.Rowset.{Rows, row_count, fetch_one, push_row}

unfoldable pub add_row : ℕ → Rows → Rows
add_row row r = record r {
  rows = r.rows ++ row ∷ [];
  rows_allocated =
      if r.rows_allocated == row_count r then (r.rows_allocated + 2) * 5 / 3 else r.rows_allocated;
}

unfoldable pub next : Rows → Status × Rows
next r =
    if leb (row_count r) r.row_cursor
    then (fail, r)
    else (pass, record r { row_cursor = r.row_cursor + 1 })

abbrev pub rewind : Rows → Rows
rewind r = record r { row_cursor = 0 }

abbrev pub eof : Rows → Bool
eof r = leb (row_count r) r.row_cursor

-- `fetch_all`: the rows that `fetch_one` gives for the indices `cursor` on, `left` of them.
unfoldable pub fetch_from : ℕ → ℕ → Rows → List ℕ
fetch_from cursor zero r = []
fetch_from cursor (suc left) r = push_row (fetch_one r cursor) (fetch_from (cursor + 1) left r)

unfoldable pub fetch_all : Rows → List ℕ
unfolding fetch_from
fetch_all r = fetch_from 0 (row_count r) r

-- Rows that are added one after the other.
unfoldable pub add_rows : List ℕ → Rows → Rows
unfolding add_row
add_rows [] r = r
add_rows (row ∷ rows) r = add_rows rows (add_row row r)

abbrev pub no_rows : Rows
no_rows = record { rows = []; rows_allocated = 0; row_cursor = 0; has_meta = true }

grow :
    (r : Rows) (row : ℕ)
    → row_count r ≤ r.rows_allocated
    → row_count (add_row row r) ≤ (add_row row r).rows_allocated
unfolding add_row
grow r row h =
    let n = length-append {0} r.rows (row ∷ []) in
    elim (Bool-cases (r.rows_allocated == row_count r)) [
      | inl e ↦ rw e (ground arith)
      | inr e ↦ rw e (ground arith)
    ]

add_rows_lem :
    (rows : List ℕ) (r : Rows)
    → row_count r ≤ r.rows_allocated
    → ((add_rows rows r).rows ≡ r.rows ++ rows)
      × (row_count (add_rows rows r) ≤ (add_rows rows r).rows_allocated)
unfolding add_rows
add_rows_lem [] r h = (sym (append-nil r.rows), h)
add_rows_lem (row ∷ rows) r h =
    let n = length-append {0} r.rows (row ∷ []) in
    let ih = add_rows_lem rows (add_row row r) (grow r row h) in
    (ih.0 ∙ append_assoc r.rows (row ∷ []) rows, ih.1)

get_elem?-append :
    (xs : List ℕ) (y : ℕ) (ys : List ℕ) → get_elem? (xs ++ y ∷ ys) (length xs) ≡ some y
get_elem?-append [] y ys = refl
get_elem?-append (x ∷ xs) y ys = get_elem?-append xs y ys

fetch_from-append :
    (xs ys : List ℕ) (r : Rows) → r.rows ≡ xs ++ ys → fetch_from (length xs) (length ys) r ≡ ys
unfolding fetch_from
fetch_from-append xs [] r e = refl
fetch_from-append xs (y ∷ ys) r e =
    let hit : get_elem? r.rows (length xs) ≡ some y =
      ap (λ (rows : List ℕ). get_elem? rows (length xs)) e ∙ get_elem?-append xs y ys in
    let len : length (xs ++ y ∷ []) ≡ length xs + 1 = length-append {0} xs (y ∷ []) in
    let rest : fetch_from (length xs + 1) (length ys) r ≡ ys =
      subst (λ (n : ℕ). fetch_from n (length ys) r ≡ ys) len
        (fetch_from-append (xs ++ y ∷ []) ys r (e ∙ sym (append_assoc xs (y ∷ []) ys))) in
    ap (λ (o : Option ℕ). push_row o (fetch_from (length xs + 1) (length ys) r)) hit
    ∙ ap (λ (l : List ℕ). y ∷ l) rest

-- The array of a buffered row set is never written past its end, and `fetch_all` gives the rows
-- in the order in which they were added.
pub add_rows-fetch_all :
    (rows : List ℕ)
    → (row_count (add_rows rows no_rows) ≤ (add_rows rows no_rows).rows_allocated)
      × (fetch_all (add_rows rows no_rows) ≡ rows)
unfolding fetch_all
add_rows-fetch_all rows =
    let r = add_rows rows no_rows in
    let kept = add_rows_lem rows no_rows (omega arith) in
    let n : length rows ≡ length r.rows = sym (ap (λ (l : List ℕ). length l) kept.0) in
    (kept.1, subst (λ (k : ℕ). fetch_from 0 k r ≡ rows) n (fetch_from-append [] rows r kept.0))
