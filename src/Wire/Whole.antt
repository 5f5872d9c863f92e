-- ===== src/Wire/Whole.antt =====
-- The answer of a server to a statement, read to its end (xmysqlnd_receive_message with
-- stmt_execute_handlers, xmysqlnd/xmysqlnd_wireprotocol.cc).
use pecl_database_mysql_xdev.Common.{
  ◌^◌, ◌<◌, ◌≡◌, ◌≢◌, refl, ap, subst, ◌∙◌, Bool, false, List, [], ◌∷◌, ◌++◌, Option, none, length,
  length-append, arith,
}
use pecl_database_mysql_xdev.Fields.{Zval, Library}
use pecl_database_mysql_xdev.Fields.Types.{FieldMeta}
use pecl_database_mysql_xdev.Session.{Session}
use pecl_database_mysql_xdev.Wire.{Packet, Frame}
use pecl_database_mysql_xdev.Wire.Notices.{Log, no_log}
use pecl_database_mysql_xdev.Wire.ResultSets.{SetState, init_read, Callbacks}
use pecl_database_mysql_xdev.Wire.Answers.{
  Answer, length-Answer, column, column_notice, start_rows, no_set,
}
use pecl_database_mysql_xdev.Wire.Row.{rows_of}
use pecl_database_mysql_xdev.Wire.Reading.{
  with_column, read-Rows, notice-reads, column-reads, read-Tail, Ready, Reads, no_more_results,
}

module _ (lib : Library) (cb : Callbacks) where
  -- Before the rows: the columns that were read are known, and there is no row.
  record Starts (s : SetState) (before : List FieldMeta) : Type 0 where
    ready : Ready lib cb s before
    none_yet : s.rowset ≡ none

  start-column :
      (s : SetState) (before : List FieldMeta) (m : FieldMeta)
      → length (before ++ m ∷ []) < 2 ^ 16
      → Starts s before
      → Starts (with_column lib cb s m) (before ++ m ∷ [])
  start-column s before m bound v =
      let n = length-append {0} before (m ∷ []) in
      let count = v.ready.described.count in
      record {
        ready = record {
          described = record {
            known = ap (λ (l : List FieldMeta). l ++ m ∷ []) v.ready.described.known;
            count = omega arith;
          };
          unlimited = v.ready.unlimited;
        };
        none_yet = v.none_yet;
      }

  snoc-ne-nil : (l : List FieldMeta) (m : FieldMeta) → l ++ m ∷ [] ≢ []
  snoc-ne-nil l m e =
      let n = ap (λ (k : List FieldMeta). length k) e in
      let sum = length-append {0} l (m ∷ []) in omega arith

  read-Answer :
      (before columns : List FieldMeta) (rows : List (List Zval)) (more : Bool) (ps : List Packet)
      (rest : List Frame) (s : SetState) (log end : Log)
      → length columns < 2 ^ 16
      → Starts s before
      → (before ≡ [] → s.has_more_rows_in_set ≡ false)
      → Answer lib cb before log columns rows more end ps
      → Reads lib cb ps rest s log columns rows more end
  read-Answer before columns rows more _ rest s log end bound v f (column {m = m} {ps = ps} later) =
      let shorter = length-Answer lib cb (before ++ m ∷ []) columns rows more ps log end later in
      let next = start-column s before m (omega arith) v in
      let r =
        read-Answer (before ++ m ∷ []) columns rows more ps rest (with_column lib cb s m) log end
          bound next (λ e. absurd (snoc-ne-nil before m e)) later in
      (r.0, column-reads lib cb m ps rest s log ∙ r.1, r.2)
  read-Answer before columns rows more _ rest s log end bound v f
        (column_notice {log' = log'} {n = n} {ps = ps} told later) =
      let r = read-Answer before columns rows more ps rest s log' end bound v f later in
      (r.0, notice-reads lib cb n ps rest s log log' told ∙ r.1, r.2)
  read-Answer before _ rows more ps rest s log end bound v f
        (start_rows {m = m} {ms = ms} e later) =
      let known : Ready lib cb s (m ∷ ms) =
        subst (λ (l : List FieldMeta). Ready lib cb s l) e v.ready in
      let r = read-Rows lib cb m ms rows more ps rest s log end known later in
      let none_before = ap (λ (o : Option (List (List Zval))). rows_of o ++ rows) v.none_yet in
      (
        r.0,
        r.1,
        record {
          columns_held = r.2.columns_held;
          rows_held = r.2.rows_held ∙ none_before;
          results_flag = r.2.results_flag;
          rows_flag = r.2.rows_flag;
        },
      )
  read-Answer _ _ _ _ ps rest s log end bound v f (no_set tail) = (
    no_more_results lib cb s,
    read-Tail lib cb ps rest s log end tail,
    record {
      columns_held = v.ready.described.known;
      rows_held = ap rows_of v.none_yet;
      results_flag = refl;
      rows_flag = f refl;
    },
  )

  -- An answer of the grammar `Answer`, of fewer than 2^16 columns, is read to its end and no further,
  -- without a limit on the rows. Such an answer has columns, rows, the end of the set and the end of
  -- the statement, in frames of their own, with notices between by which the reading goes on; it has
  -- no error, no output parameters, no suspended rows, and no warning that closes the session. The
  -- call passes, the columns, the decoded rows and the
  -- notices are those of the answer in order, no rows are to come, and more results follow exactly
  -- where the answer says so.
  pub Answer-received :
      (columns : List FieldMeta) (rows : List (List Zval)) (more : Bool) (end : Log)
      (ps : List Packet) (rest : List Frame) (session : Session)
      → length columns < 2 ^ 16
      → Answer lib cb [] (no_log session) columns rows more end ps
      → Reads lib cb ps rest (init_read 0) (no_log session) columns rows more end
  Answer-received columns rows more end ps rest session bound answer =
      read-Answer [] columns rows more ps rest (init_read 0) (no_log session) end bound
        (record {
          ready = record { described = record { known = refl; count = refl }; unlimited = refl };
          none_yet = refl;
        })
        (λ e. refl) answer
