-- ===== src/Wire/Statements.antt =====
-- get_fwd_result of xmysqlnd/xmysqlnd_stmt.cc. The status of a result is `returned fail` for a null
-- result, and where the read does not return it says why. The callbacks of a statement
-- are those of its first read.
use pecl_database_mysql_xdev.Common.{ℕ, ◌==◌, if◌then◌else◌, Bool, true, false, List, pass}
use pecl_database_mysql_xdev.Fields.{Library}
use pecl_database_mysql_xdev.Wire.{Ending, returned}
use pecl_database_mysql_xdev.Wire.{Frame, receive_message}
use pecl_database_mysql_xdev.Wire.Notices.{no_log}
use pecl_database_mysql_xdev.Wire.ResultSets.{init_read, Reader, Callbacks, stmt_execute_handlers}

-- The statement: whether a forward read has begun, and `read_ctx` with its reader.
pub record Statement : Type 0 where
  pub partial_read_started : Bool
  pub read_ctx : Reader

pub record FwdResult : Type 0 where
  pub status : Ending
  pub has_more_rows_in_set : Bool
  pub has_more_results : Bool
  pub stmt : Statement
  pub rest : List Frame

-- The context of the first forward read is made anew; the error stays.
abbrev pub start_read : Statement → Reader
start_read stmt =
    if stmt.partial_read_started
    then stmt.read_ctx
    else record stmt.read_ctx { set = init_read 0; log = no_log stmt.read_ctx.log.session }

abbrev pub with_prefetch : ℕ → Reader → Reader
with_prefetch rows r = record r {
  set = record r.set { fwd_prefetch_count = rows; prefetch_counter = rows };
}

-- The flags that are given back: those of the reader after a read that passes.
abbrev pub fwd_result : Ending → Reader → List Frame → FwdResult
fwd_result (returned pass) r rest = record {
  status = returned pass;
  has_more_rows_in_set = r.set.has_more_rows_in_set;
  has_more_results = r.set.has_more_results;
  stmt = record { partial_read_started = true; read_ctx = r };
  rest = rest;
}
fwd_result other r rest = record {
  status = other;
  has_more_rows_in_set = true;
  has_more_results = false;
  stmt = record { partial_read_started = true; read_ctx = r };
  rest = rest;
}

-- Without rows to ask for nothing is read, and more rows are supposed.
abbrev pub unless_none : Bool → Reader → List Frame → Ending × Reader × List Frame → FwdResult
unless_none true ctx frames r = record {
  status = returned pass;
  has_more_rows_in_set = true;
  has_more_results = false;
  stmt = record { partial_read_started = true; read_ctx = ctx };
  rest = frames;
}
unless_none false ctx frames r = fwd_result r.0 r.1 r.2

module _ (lib : Library) (cb : Callbacks) where
  unfoldable pub get_fwd_result : ℕ → List Frame → Statement → FwdResult
  unfolding receive_message stmt_execute_handlers
  get_fwd_result rows frames stmt =
      let ctx = with_prefetch rows (start_read stmt) in
      unless_none (rows == 0) ctx frames (receive_message (stmt_execute_handlers lib cb) frames ctx)
