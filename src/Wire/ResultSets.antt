-- ===== src/Wire/ResultSets.antt =====
-- The reader of result sets: stmt_execute_handlers and st_xmysqlnd_result_set_reader_ctx of
-- xmysqlnd/xmysqlnd_wireprotocol.cc, with the handlers that a statement binds to them
-- (handler_on_meta_field, handler_on_row_field and handler_on_error of xmysqlnd/xmysqlnd_stmt.cc).
-- `meta` is the list of the columns, empty where there is no description yet; a row set is the
-- list of its rows, and the row that is being decoded grows by a value for each field.
use pecl_database_mysql_xdev.Common.{
  ℕ, zero, suc, ◌+◌, ◌-◌, ◌%◌, ◌^◌, ◌==◌, Bool, true, false, not, if◌then◌else◌, List, [], ◌∷◌,
  ◌++◌, Option, none, some, Result, ok, err, Bytes, length, get_elem?,
}
use pecl_database_mysql_xdev.Fields.{Zval, Library, Fault, Decoded}
use pecl_database_mysql_xdev.Fields.Types.{FieldMeta, field_to_zval}
use pecl_database_mysql_xdev.Wire.{
  HndStatus, hnd_pass, hnd_fail, hnd_pass_return_fail, hnd_again, hnd_again_async,
  hnd_default_action, undefined_behaviour, throws, Notice, Handlers,
}
use pecl_database_mysql_xdev.Wire.Notices.{Log, Entry, inspect_notice_frame}

-- `field_count` is a bit field of 16 bits, `prefetch_counter` a number of 64 bits.
pub record SetState : Type 0 where
  pub field_count : ℕ
  pub has_more_results : Bool
  pub has_more_rows_in_set : Bool
  pub fwd_prefetch_count : ℕ
  pub prefetch_counter : ℕ
  pub meta : List FieldMeta
  pub rowset : Option (List (List Zval))
  pub current_row : List Zval

-- What a read begins with, `prefetch` rows being asked for, 0 for all: init_read and the context of
-- get_buffered_result and get_fwd_result.
abbrev pub init_read : ℕ → SetState
init_read prefetch = record {
  field_count = 0;
  has_more_results = false;
  has_more_rows_in_set = false;
  fwd_prefetch_count = prefetch;
  prefetch_counter = prefetch;
  meta = [];
  rowset = none;
  current_row = [];
}

-- The result sets, what notices tell, and the error that was set.
pub record Reader : Type 0 where
  pub set : SetState
  pub log : Log
  pub error_no : Option ℕ

-- The handlers that the caller of the statement gives, and whether the server keeps sessions open.
pub record Callbacks : Type 0 where
  pub on_warning : Option (Entry → HndStatus)
  pub on_error : Option (ℕ → HndStatus)
  pub knows_keep_open : Bool

-- `handler_on_error`.
abbrev pub on_error : Option (ℕ → HndStatus) → ℕ → Reader → Reader × HndStatus
on_error none code r = (record r { error_no = some code }, hnd_pass_return_fail)
on_error (some f) code r = (r, f code)

abbrev pub on_notice : Callbacks → Notice → Reader → Reader × HndStatus
on_notice cb n r =
    let told = inspect_notice_frame cb.on_warning cb.knows_keep_open n r.log in
    (record r { log = told.0 }, told.1)

-- `stmt_execute_on_COLUMN_META` with `handler_on_meta_field`.
abbrev pub on_column_meta : FieldMeta → Reader → Reader × HndStatus
on_column_meta m r = (
  record r {
    set = record r.set {
      has_more_results = true;
      has_more_rows_in_set = true;
      field_count = (r.set.field_count + 1) % 2 ^ 16;
      meta = r.set.meta ++ m ∷ [];
    };
  },
  hnd_again,
)

-- The row set is made for the first row, if the columns are known.
abbrev pub created : List FieldMeta → Option (List (List Zval)) → Option (List (List Zval))
created [] rowset = rowset
created (m ∷ meta) none = some []
created (m ∷ meta) (some rows) = some rows

-- The last field of a row: the row is added, and a counter that falls to 0 suspends the read.
abbrev pub add_row : SetState → List (List Zval) → List Zval → SetState × HndStatus
add_row s rows row =
    let counter = (s.prefetch_counter + (2 ^ 64 - 1)) % 2 ^ 64 in
    if not (s.fwd_prefetch_count == 0)
    then (
      record s { rowset = some (rows ++ row ∷ []); current_row = row; prefetch_counter = counter },
      (if counter == 0 then hnd_pass else hnd_again),
    )
    else (record s { rowset = some (rows ++ row ∷ []); current_row = row }, hnd_again)

abbrev pub add_field : SetState → ℕ → List (List Zval) → Result Fault Decoded → SetState × HndStatus
add_field s idx rows (err fault) = (s, undefined_behaviour)
add_field s idx rows (ok (status, zv)) =
    let row = (if idx == 0 then [] else s.current_row) ++ zv ∷ [] in
    if idx + 1 == length s.meta
    then add_row s rows row
    else (record s { rowset = some rows; current_row = row }, hnd_again)

abbrev pub add_decoded :
    SetState → ℕ → List (List Zval) → Option (Result Fault Decoded) → SetState × HndStatus
add_decoded s idx rows none = (s, undefined_behaviour)
add_decoded s idx rows (some decoded) = add_field s idx rows decoded

module _ (lib : Library) where
  abbrev pub decode : Option FieldMeta → Bytes → Option (Result Fault Decoded)
  decode none buf = none
  decode (some m) buf = some (field_to_zval lib m buf)

  -- `handler_on_row_field`, after the row set has been made.
  abbrev pub decode_field : SetState → ℕ → Bytes → Option (List (List Zval)) → SetState × HndStatus
  decode_field s idx buf none = (s, hnd_again)
  decode_field s idx buf (some rows) = add_decoded s idx rows (decode (get_elem? s.meta idx) buf)

  unfoldable pub on_row_field : Bytes → ℕ → SetState → SetState × HndStatus
  on_row_field buf idx s = decode_field s idx buf (created s.meta s.rowset)

  -- A status by which the fields of a row go on.
  abbrev pub goes_on : HndStatus → Bool
  goes_on hnd_pass = true
  goes_on hnd_again = true
  goes_on hnd_fail = false
  goes_on hnd_pass_return_fail = false
  goes_on hnd_again_async = false
  goes_on hnd_default_action = false
  goes_on undefined_behaviour = false
  goes_on (throws c) = false

  -- The loop of `stmt_execute_on_RSET_ROW`: `left` fields from `idx` on, after the status `last`.
  unfoldable pub read_fields : List Bytes → ℕ → ℕ → HndStatus → SetState → SetState × HndStatus
  read_fields fields zero idx last s = (s, last)
  read_fields fields (suc left) idx last s = elim (get_elem? fields idx) [
    | none ↦ (s, undefined_behaviour)
    | some buf ↦
        let r = on_row_field buf idx s in
        elim (goes_on r.1) [ true ↦ read_fields fields left (idx + 1) r.1 r.0 | false ↦ r ]
  ]

  unfoldable pub on_rset_row : List Bytes → Reader → Reader × HndStatus
  on_rset_row fields r =
      let read =
        read_fields fields r.set.field_count 0 hnd_again
          (record r.set { has_more_results = true }) in
      (record r { set = read.0 }, read.1)

  abbrev pub flags : Bool → Bool → Reader → Reader
  flags results rows r = record r {
    set = record r.set { has_more_results = results; has_more_rows_in_set = rows };
  }

  abbrev pub more_results : Bool → Reader → Reader
  more_results results r = record r { set = record r.set { has_more_results = results } }

  -- `stmt_execute_handlers`.
  unfoldable pub stmt_execute_handlers : Callbacks → Handlers Reader
  stmt_execute_handlers cb = record {
    on_ok = none;
    on_error = some (on_error cb.on_error);
    on_capabilities = none;
    on_auth_continue = none;
    on_auth_ok = none;
    on_notice = some (on_notice cb);
    on_column_meta = some on_column_meta;
    on_rset_row = some on_rset_row;
    on_rset_fetch_done = some (λ r. (flags false false r, hnd_again));
    on_rset_fetch_suspended = some (λ r. (more_results true r, hnd_pass));
    on_rset_fetch_done_more_rsets = some (λ r. (flags true false r, hnd_pass));
    on_stmt_execute_ok = some (λ r. (more_results false r, hnd_pass));
    on_rset_fetch_done_more_out_params = some (λ r. (more_results true r, hnd_pass));
    on_compressed = true;
    on_unexpected = none;
  }
