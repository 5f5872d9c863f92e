-- ===== src/Rowset/Tests.antt =====
-- Runs of the row sets.
use pecl_database_mysql_xdev.Common.{ℕ, ◌≤◌, sym, arith, ◌≡◌, refl, true, List, [], ◌∷◌}
use pecl_database_mysql_xdev.Rowset.Buffered.{add_rows, no_rows, fetch_all, add_rows-fetch_all}
use pecl_database_mysql_xdev.Rowset.Delivery.{remaining, false≢true, iterate-remaining}
use pecl_database_mysql_xdev.Rowset.{
  row_count, Forward, iterate, next, fetch_current, eof, read_rows,
}

-- A forward row set before its first read, with two rows to a read.
abbrev unread : List ℕ → Forward
unread line = record {
  base = record { rows = []; rows_allocated = 0; row_cursor = 0; has_meta = true };
  prefetch_rows = 2;
  fwd_prefetch_count = 2;
  total_row_count = 0;
  total_fetched = 0;
  line = line;
  has_more_rows_in_set = true;
}

run_iterate : iterate 9 (read_rows 2 (4 ∷ 5 ∷ 6 ∷ 7 ∷ []) (unread [])) ≡ 4 ∷ 5 ∷ 6 ∷ 7 ∷ []
unfolding iterate next fetch_current eof read_rows
run_iterate = refl

iterate-remaining_example :
    iterate 4 (read_rows 2 (4 ∷ 5 ∷ 6 ∷ 7 ∷ []) (unread []))
    ≡ remaining (read_rows 2 (4 ∷ 5 ∷ 6 ∷ 7 ∷ []) (unread []))
unfolding read_rows
iterate-remaining_example =
    iterate-remaining 4 (read_rows 2 (4 ∷ 5 ∷ 6 ∷ 7 ∷ []) (unread []))
      (record {
        meta = refl;
        reads = omega arith;
        grows = omega arith;
        fits = omega arith;
        current = (λ e. omega arith);
        done = (λ e. absurd (false≢true (sym e)));
      })
      (omega arith)

add_rows-fetch_all_example :
    (row_count (add_rows (4 ∷ 5 ∷ []) no_rows) ≤ (add_rows (4 ∷ 5 ∷ []) no_rows).rows_allocated)
    × (fetch_all (add_rows (4 ∷ 5 ∷ []) no_rows) ≡ 4 ∷ 5 ∷ [])
add_rows-fetch_all_example = add_rows-fetch_all (4 ∷ 5 ∷ [])
