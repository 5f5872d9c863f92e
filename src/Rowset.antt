-- ===== src/Rowset.antt =====
-- The row sets, xmysqlnd/xmysqlnd_rowset_fwd.cc and xmysqlnd/xmysqlnd_rowset_buffered.cc, with the
-- part of handler_on_row_field in xmysqlnd/xmysqlnd_stmt.cc that adds rows and stops a read after
-- a number of them. A row is a number. The array `rows` is the list of its `row_count` entries
-- and `rows_allocated`; it is null where nothing has been allocated. The rows that the server has
-- still to send are a list.
pub mod Buffered
pub mod Delivery
pub mod Tests
use pecl_database_mysql_xdev.Common.{
  ℕ, zero, suc, ◌+◌, ◌-◌, ◌*◌, ◌/◌, ltb, leb, ◌==◌, Bool, true, false, not, ◌&&◌, ◌||◌,
  if◌then◌else◌, List, [], ◌∷◌, ◌++◌, Option, none, some, Status, pass, fail, length, get_elem?,
}

-- The fields that the two classes share.
pub record Rows : Type 0 where
  pub rows : List ℕ
  pub rows_allocated : ℕ
  pub row_cursor : ℕ
  pub has_meta : Bool

abbrev pub row_count : Rows → ℕ
row_count r = length r.rows

-- `free_rows_contents`: the entries are dropped, the array is kept. Without an array or without
-- the columns' description nothing is done.
abbrev pub free_rows_contents : Rows → Rows
free_rows_contents r =
    if not (r.rows_allocated == 0) && r.has_meta then record r { rows = []; row_cursor = 0 } else r

-- `fetch_one`: the row at an index, `none` for FAIL. The columns of a row are not split.
abbrev pub fetch_one : Rows → ℕ → Option ℕ
fetch_one r cursor = get_elem? r.rows cursor

-- xmysqlnd_rowset_fwd with the read context of its statement: the rows at the server, whether
-- there may be more in the set, and how many rows a read asks for.
pub record Forward : Type 0 where
  pub base : Rows
  pub prefetch_rows : ℕ
  pub fwd_prefetch_count : ℕ
  pub total_row_count : ℕ
  pub total_fetched : ℕ
  pub line : List ℕ
  pub has_more_rows_in_set : Bool

-- `add_row`.
unfoldable pub add_row : ℕ → Forward → Forward
add_row row f = record f {
  base = record f.base {
    rows = f.base.rows ++ row ∷ [];
    rows_allocated =
        if f.base.rows_allocated == row_count f.base
        then f.base.rows_allocated + f.prefetch_rows
        else f.base.rows_allocated;
  };
  total_row_count = f.total_row_count + 1;
}

-- `read_response` with `prefetch_counter`: a counter that reaches 0 suspends the read, and one
-- that starts from 0 never does. The end of the rows ends the set.
unfoldable pub read_rows : ℕ → List ℕ → Forward → Forward
unfolding add_row
read_rows counter [] f = record f { line = []; has_more_rows_in_set = false }
read_rows zero (row ∷ line) f = read_rows zero line (add_row row f)
read_rows (suc zero) (row ∷ line) f = record (add_row row f) {
  line = line;
  has_more_rows_in_set = true;
}
read_rows (suc (suc n)) (row ∷ line) f = read_rows (suc n) line (add_row row f)

-- `next` where its read of the connection succeeds.
unfoldable pub next : Forward → Forward
unfolding read_rows
next f =
    let freed = record f { base = free_rows_contents f.base } in
    if row_count f.base - f.base.row_cursor == 1 && f.has_more_rows_in_set
    then read_rows f.fwd_prefetch_count f.line freed
    else record f { base = record f.base { row_cursor = f.base.row_cursor + 1 } }

-- `fetch_current`: the count rises here and again in a successful `fetch_one`.
unfoldable pub fetch_current : Forward → Option ℕ × Forward
fetch_current f =
    let row = fetch_one f.base f.base.row_cursor in
    (row, record f { total_fetched = f.total_fetched + 1 + elim row [ none ↦ 0 | some r ↦ 1 ] })

unfoldable pub eof : Forward → Bool
eof f = not f.has_more_rows_in_set && leb (row_count f.base) f.base.row_cursor

unfoldable pub rewind : Forward → Status
rewind f = if f.total_fetched == 0 && f.base.row_cursor == 0 then pass else fail

abbrev pub push_row : Option ℕ → List ℕ → List ℕ
push_row none rows = rows
push_row (some r) rows = r ∷ rows

-- A script's loop: until the end, fetch the current row and go to the next one.
unfoldable pub iterate : ℕ → Forward → List ℕ
iterate zero f = []
iterate (suc fuel) f =
    let rest = iterate fuel (next (fetch_current f).1) in
    if eof f then [] else push_row (fetch_current f).0 rest
