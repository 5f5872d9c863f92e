-- ===== src/Wire/Answers.antt =====
-- The answers of a server to a statement, as mysqlx_resultset.proto and mysqlx_sql.proto have them:
-- columns, rows, the end of the set, the end of the statement, and notices anywhere between.
use pecl_database_mysql_xdev.Common.{
  ◌≡◌, Bool, true, false, List, [], ◌∷◌, ◌++◌, ok, Status, Bytes, length, length-append, ◌≤◌, ap,
  arith,
}
use pecl_database_mysql_xdev.Fields.{Zval, Library}
use pecl_database_mysql_xdev.Fields.Types.{FieldMeta, field_to_zval}
use pecl_database_mysql_xdev.Wire.{
  hnd_again, Notice, Packet, notice, column_metadata, row, fetch_done, fetch_done_more_rsets,
  stmt_execute_ok,
}
use pecl_database_mysql_xdev.Wire.Notices.{Log, inspect_notice_frame}
use pecl_database_mysql_xdev.Wire.ResultSets.{Callbacks}

module _ (lib : Library) (cb : Callbacks) where
  -- A field for each column, and what each is decoded to.
  pub data DecodesTo : List FieldMeta → List Bytes → List Zval → Type 0 where
    nil : DecodesTo [] [] []
    cons :
        {m : FieldMeta}
        → {ms : List FieldMeta} → {buf : Bytes} → {bufs : List Bytes} → {z : Zval}
        → {zs : List Zval} → {status : Status} → field_to_zval lib m buf ≡ ok (status, z)
        → DecodesTo ms bufs zs
        → DecodesTo (m ∷ ms) (buf ∷ bufs) (z ∷ zs)

  -- A notice by which the reading goes on, from one log to the next.
  abbrev pub Told : Notice → Log → Log → Type 0
  Told n log log' = inspect_notice_frame cb.on_warning cb.knows_keep_open n log ≡ (log', hnd_again)

  -- After the end of the set: the end of the statement.
  pub data Tail : Log → Log → List Packet → Type 0 where
    done : {log : Log} → Tail log log (stmt_execute_ok ∷ [])
    tail_notice :
        {log log' end : Log}
        → {n : Notice} → {ps : List Packet} → Told n log log'
        → Tail log' end ps
        → Tail log end (notice n ∷ ps)

  -- The rows of a set with its columns, and whether more results follow it.
  pub data Rows (columns : List FieldMeta)
      : Log → List (List Zval) → Bool → Log → List Packet → Type 0 where
    next_row :
        {log end : Log}
        → {bufs : List Bytes} → {zs : List Zval} → {rows : List (List Zval)} → {more : Bool}
        → {ps : List Packet} → DecodesTo columns bufs zs
        → Rows columns log rows more end ps
        → Rows columns log (zs ∷ rows) more end (row bufs ∷ ps)
    rows_notice :
        {log log' end : Log}
        → {n : Notice} → {rows : List (List Zval)} → {more : Bool} → {ps : List Packet}
        → Told n log log'
        → Rows columns log' rows more end ps
        → Rows columns log rows more end (notice n ∷ ps)
    last_set :
        {log end : Log}
        → {ps : List Packet} → Tail log end ps
        → Rows columns log [] false end (fetch_done ∷ ps)
    more_sets : {log : Log} → Rows columns log [] true log (fetch_done_more_rsets ∷ [])

  -- The answer after the columns `before`: all columns, the rows, whether more results follow.
  pub data Answer
      : List FieldMeta
        → Log
        → List FieldMeta
        → List (List Zval)
        → Bool
        → Log
        → List Packet
        → Type 0 where
    column :
        {before columns : List FieldMeta}
        → {log end : Log} → {m : FieldMeta} → {rows : List (List Zval)} → {more : Bool}
        → {ps : List Packet} → Answer (before ++ m ∷ []) log columns rows more end ps
        → Answer before log columns rows more end (column_metadata m ∷ ps)
    column_notice :
        {before columns : List FieldMeta}
        → {log log' end : Log} → {n : Notice} → {rows : List (List Zval)} → {more : Bool}
        → {ps : List Packet} → Told n log log'
        → Answer before log' columns rows more end ps
        → Answer before log columns rows more end (notice n ∷ ps)
    start_rows :
        {m : FieldMeta}
        → {ms before : List FieldMeta} → {log end : Log} → {rows : List (List Zval)} → {more : Bool}
        → {ps : List Packet} → before ≡ m ∷ ms
        → Rows (m ∷ ms) log rows more end ps
        → Answer before log (m ∷ ms) rows more end ps
    no_set :
        {log end : Log} → {ps : List Packet} → Tail log end ps → Answer [] log [] [] false end ps

  -- The columns that were read are among all columns.
  pub length-Answer :
      (before columns : List FieldMeta) (rows : List (List Zval)) (more : Bool) (ps : List Packet)
      (log end : Log)
      → Answer before log columns rows more end ps
      → length before ≤ length columns
  length-Answer before columns rows more _ log end (column {m = m} {ps = ps} later) =
      let h = length-Answer (before ++ m ∷ []) columns rows more ps log end later in
      let size = length-append {0} before (m ∷ []) in omega arith
  length-Answer before columns rows more _ log end
        (column_notice {log' = log'} {ps = ps} told later) =
      length-Answer before columns rows more ps log' end later
  length-Answer before _ rows more ps log end (start_rows e later) =
      let size = ap (λ (l : List FieldMeta). length l) e in omega arith
  length-Answer _ _ rows more ps log end (no_set tail) = omega arith
