-- ===== src/Wire/Reading.antt =====
-- The messages of an answer to a statement, and the rows of a set read to its end (xmysqlnd_receive_message with
-- stmt_execute_handlers, xmysqlnd/xmysqlnd_wireprotocol.cc).
use pecl_database_mysql_xdev.Common.{
  ◌+◌, ◌%◌, ◌^◌, ◌≡◌, refl, sym, ap, ◌∙◌, Bool, true, false, List, [], ◌∷◌, ◌++◌, map, append_assoc,
  append-nil, pass, Bytes,
}
use pecl_database_mysql_xdev.Fields.{Zval, Library}
use pecl_database_mysql_xdev.Fields.Types.{FieldMeta}
use pecl_database_mysql_xdev.Wire.{returned}
use pecl_database_mysql_xdev.Wire.{
  HndStatus, Notice, Packet, notice, column_metadata, row, fetch_done, fetch_done_more_rsets,
  stmt_execute_ok, Frame, plain, Handlers, process_received_message, Received, receive_message,
}
use pecl_database_mysql_xdev.Wire.Notices.{Log}
use pecl_database_mysql_xdev.Wire.ResultSets.{SetState, Reader, Callbacks, stmt_execute_handlers}
use pecl_database_mysql_xdev.Wire.Answers.{
  DecodesTo, Told, Tail, done, tail_notice, Rows, next_row, rows_notice, last_set, more_sets,
}
use pecl_database_mysql_xdev.Wire.Batches.{receive_plain}
use pecl_database_mysql_xdev.Wire.Delivery.{row_grown}
use pecl_database_mysql_xdev.Wire.Row.{
  reader, rows_of, Described, begun, row-added, add_row-unlimited,
}

module _ (lib : Library) (cb : Callbacks) where
  abbrev pub handlers : Handlers Reader
  unfolding stmt_execute_handlers
  handlers = stmt_execute_handlers lib cb

  abbrev pub read : List Packet → List Frame → SetState → Log → Received handlers
  read ps rest s log = receive_message handlers (map plain ps ++ rest) (reader s log)

  pub notice-reads :
      (n : Notice) (ps : List Packet) (rest : List Frame) (s : SetState) (log log' : Log)
      → Told lib cb n log log'
      → read (notice n ∷ ps) rest s log ≡ read ps rest s log'
  unfolding stmt_execute_handlers process_received_message
  notice-reads n ps rest s log log' told =
      receive_plain handlers (notice n) (map plain ps ++ rest) (reader s log) (reader s log')
        (ap (λ (t : Log × HndStatus). (reader s t.0, t.1)) told)

  abbrev pub no_more_results : SetState → SetState
  no_more_results s = record s { has_more_results = false }

  -- The messages that end a set or the statement.
  ok-reads :
      (rest : List Frame) (s : SetState) (log : Log)
      → read (stmt_execute_ok ∷ []) rest s log
        ≡ (returned pass, reader (no_more_results s) log, rest)
  unfolding stmt_execute_handlers process_received_message receive_message
  ok-reads rest s log = refl

  abbrev pub ended_set : Bool → SetState → SetState
  ended_set more s = record s { has_more_results = more; has_more_rows_in_set = false }

  pub more-reads :
      (rest : List Frame) (s : SetState) (log : Log)
      → read (fetch_done_more_rsets ∷ []) rest s log
        ≡ (returned pass, reader (ended_set true s) log, rest)
  unfolding stmt_execute_handlers process_received_message receive_message
  more-reads rest s log = refl

  pub fetch_done-reads :
      (ps : List Packet) (rest : List Frame) (s : SetState) (log : Log)
      → read (fetch_done ∷ ps) rest s log ≡ read ps rest (ended_set false s) log
  unfolding stmt_execute_handlers process_received_message
  fetch_done-reads ps rest s log =
      receive_plain handlers fetch_done (map plain ps ++ rest) (reader s log)
        (reader (ended_set false s) log) refl

  abbrev pub with_column : SetState → FieldMeta → SetState
  with_column s m = record s {
    has_more_results = true;
    has_more_rows_in_set = true;
    field_count = (s.field_count + 1) % 2 ^ 16;
    meta = s.meta ++ m ∷ [];
  }

  pub column-reads :
      (m : FieldMeta) (ps : List Packet) (rest : List Frame) (s : SetState) (log : Log)
      → read (column_metadata m ∷ ps) rest s log ≡ read ps rest (with_column s m) log
  unfolding stmt_execute_handlers process_received_message
  column-reads m ps rest s log =
      receive_plain handlers (column_metadata m) (map plain ps ++ rest) (reader s log)
        (reader (with_column s m) log) refl

  -- The columns are known, and no counter suspends the read.
  pub record Ready (s : SetState) (columns : List FieldMeta) : Type 0 where
    pub described : Described lib cb s columns
    pub unlimited : s.fwd_prefetch_count ≡ 0

  abbrev with_row : SetState → List Zval → SetState
  with_row s zs = row_grown lib cb (begun lib cb s) (rows_of s.rowset ++ zs ∷ []) zs

  row-reads :
      (m : FieldMeta) (ms : List FieldMeta) (bufs : List Bytes) (zs : List Zval) (ps : List Packet)
      (rest : List Frame) (s : SetState) (log : Log)
      → Ready s (m ∷ ms)
      → DecodesTo lib cb (m ∷ ms) bufs zs
      → read (row bufs ∷ ps) rest s log ≡ read ps rest (with_row s zs) log
  unfolding stmt_execute_handlers process_received_message
  row-reads m ms bufs zs ps rest s log ready d =
      receive_plain handlers (row bufs) (map plain ps ++ rest) (reader s log)
        (reader (with_row s zs) log)
        (row-added lib cb m ms bufs zs s log ready.described d
          ∙ ap (λ (q : SetState × HndStatus). (reader q.0 log, q.1))
              (add_row-unlimited lib cb (begun lib cb s) (rows_of s.rowset) zs ready.unlimited))

  pub read-Tail :
      (ps : List Packet) (rest : List Frame) (s : SetState) (log end : Log)
      → Tail lib cb log end ps
      → read ps rest s log ≡ (returned pass, reader (no_more_results s) end, rest)
  read-Tail _ rest s log _ done = ok-reads rest s log
  read-Tail _ rest s log end (tail_notice {log' = log'} {n = n} {ps = ps} told tail) =
      notice-reads n ps rest s log log' told ∙ read-Tail ps rest s log' end tail

  -- What is left of a set: its columns, its rows, and whether more results follow it.
  pub record Holds (s : SetState) (columns : List FieldMeta) (rows : List (List Zval)) (more : Bool)
      : Type 0 where
    pub columns_held : s.meta ≡ columns
    pub rows_held : rows_of s.rowset ≡ rows
    pub results_flag : s.has_more_results ≡ more
    pub rows_flag : s.has_more_rows_in_set ≡ false

  -- A call that ends with PASS, the set held, the notices told and `rest` left unread.
  abbrev pub Reads :
      List Packet
      → List Frame
      → SetState
      → Log
      → List FieldMeta
      → List (List Zval)
      → Bool
      → Log
      → Type 0
  Reads ps rest s log columns rows more end =
      (t : SetState) × (read ps rest s log ≡ (returned pass, reader t end, rest))
      × Holds t columns rows more

  pub read-Rows :
      (m : FieldMeta) (ms : List FieldMeta) (rows : List (List Zval)) (more : Bool)
      (ps : List Packet) (rest : List Frame) (s : SetState) (log end : Log)
      → Ready s (m ∷ ms)
      → Rows lib cb (m ∷ ms) log rows more end ps
      → Reads ps rest s log (m ∷ ms) (rows_of s.rowset ++ rows) more end
  read-Rows m ms _ more _ rest s log end ready
        (next_row {bufs = bufs} {zs = zs} {rows = rows} {ps = ps} d later) =
      let next : Ready (with_row s zs) (m ∷ ms) = record {
        described = record { known = ready.described.known; count = ready.described.count };
        unlimited = ready.unlimited;
      } in
      let r = read-Rows m ms rows more ps rest (with_row s zs) log end next later in
      (
        r.0,
        row-reads m ms bufs zs ps rest s log ready d ∙ r.1,
        record {
          columns_held = r.2.columns_held;
          rows_held = r.2.rows_held ∙ append_assoc (rows_of s.rowset) (zs ∷ []) rows;
          results_flag = r.2.results_flag;
          rows_flag = r.2.rows_flag;
        },
      )
  read-Rows m ms rows more _ rest s log end ready
        (rows_notice {log' = log'} {n = n} {ps = ps} told later) =
      let r = read-Rows m ms rows more ps rest s log' end ready later in
      (r.0, notice-reads n ps rest s log log' told ∙ r.1, r.2)
  read-Rows m ms _ _ _ rest s log end ready (last_set {ps = ps} tail) = (
    no_more_results (ended_set false s),
    fetch_done-reads ps rest s log ∙ read-Tail ps rest (ended_set false s) log end tail,
    record {
      columns_held = ready.described.known;
      rows_held = sym (append-nil (rows_of s.rowset));
      results_flag = refl;
      rows_flag = refl;
    },
  )
  read-Rows m ms _ _ _ rest s log _ ready more_sets = (
    ended_set true s,
    more-reads rest s log,
    record {
      columns_held = ready.described.known;
      rows_held = sym (append-nil (rows_of s.rowset));
      results_flag = refl;
      rows_flag = refl;
    },
  )
