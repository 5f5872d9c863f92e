-- ===== src/Wire/Prefetch.antt =====
-- A read of at most a number of rows, as the forward row set asks for it (handler_on_row_field of
-- xmysqlnd/xmysqlnd_stmt.cc with prefetch_counter, xmysqlnd_receive_message of
-- xmysqlnd/xmysqlnd_wireprotocol.cc).
use pecl_database_mysql_xdev.Common.{
  ℕ, zero, suc, ◌≡◌, ◌≢◌, ◌<◌, ◌^◌, ◌==◌, if◌then◌else◌, ◌⊎◌, inl, inr, refl, sym, ap, ◌∙◌, Bool,
  true, false, List, [], ◌∷◌, ◌++◌, map, append_assoc, append-nil, pass, Bytes, length, arith,
}
use pecl_database_mysql_xdev.Fields.{Zval, Library}
use pecl_database_mysql_xdev.Fields.Types.{FieldMeta}
use pecl_database_mysql_xdev.Wire.{returned}
use pecl_database_mysql_xdev.Wire.{
  HndStatus, hnd_pass, hnd_again, Packet, row, Frame, plain, process_received_message,
}
use pecl_database_mysql_xdev.Wire.Notices.{Log}
use pecl_database_mysql_xdev.Wire.ResultSets.{
  SetState, Callbacks, on_rset_row, stmt_execute_handlers,
}
use pecl_database_mysql_xdev.Wire.Answers.{
  DecodesTo, Rows, next_row, rows_notice, last_set, more_sets,
}
use pecl_database_mysql_xdev.Wire.Batches.{receive_plain, receive_last}
use pecl_database_mysql_xdev.Wire.Row.{
  reader, rows_of, Described, begun, row-added, counted, add_row-counted,
}
use pecl_database_mysql_xdev.Wire.Reading.{
  handlers, read, notice-reads, fetch_done-reads, read-Tail, more-reads, ended_set, no_more_results,
}

module _ (lib : Library) (cb : Callbacks) where
  -- A read that asks for `n` more rows of a set whose columns are known.
  pub record Limited (s : SetState) (columns : List FieldMeta) (n : ℕ) : Type 0 where
    pub described : Described lib cb s columns
    pub limited : s.fwd_prefetch_count ≢ 0
    pub counter : s.prefetch_counter ≡ n
    pub bound : n < 2 ^ 64
    pub more_rows : s.has_more_rows_in_set ≡ true

  -- The set as the call leaves it, with the rows that are held and whether more may come.
  pub record Left (t : SetState) (columns : List FieldMeta) (rows : List (List Zval))
      (more_rows : Bool) : Type 0 where
    pub columns_held : Described lib cb t columns
    pub rows_held : rows_of t.rowset ≡ rows
    pub rows_flag : t.has_more_rows_in_set ≡ more_rows

  module _ (columns : List FieldMeta) (more : Bool) (end : Log) where
    -- The call takes `n` rows of `rows`, and what it leaves unread are the others.
    abbrev pub Suspends : ℕ → List Packet → List Frame → SetState → Log → List (List Zval) → Type 0
    Suspends n ps rest s log rows =
        (taken : List (List Zval)) × (left : List (List Zval)) × (later : List Packet)
        × (log' : Log) × (t : SetState) × (rows ≡ taken ++ left)
        × (length taken ≡ n)
        × (read lib cb ps rest s log ≡ (returned pass, reader t log', map plain later ++ rest))
        × Rows lib cb columns log' left more end later
        × Left t columns (rows_of s.rowset ++ taken) true

    -- The call takes all rows, fewer than `n`, and reads to the end of the set.
    abbrev pub ReadsAll : ℕ → List Packet → List Frame → SetState → Log → List (List Zval) → Type 0
    ReadsAll n ps rest s log rows =
        (fewer : length rows < n) × (t : SetState) × (read lib cb ps rest s log
          ≡ (returned pass, reader t end, rest))
        × (t.has_more_results ≡ more)
        × Left t columns (rows_of s.rowset ++ rows) false

  abbrev row_taken : SetState → ℕ → List Zval → SetState
  row_taken s n zs = counted lib cb (begun lib cb s) n (rows_of s.rowset) zs

  row-processed :
      (m : FieldMeta) (ms : List FieldMeta) (bufs : List Bytes) (zs : List Zval) (s : SetState)
      (log : Log) (n : ℕ)
      → Limited s (m ∷ ms) (suc n)
      → DecodesTo lib cb (m ∷ ms) bufs zs
      → on_rset_row lib bufs (reader s log)
        ≡ (reader (row_taken s n zs) log, if n == 0 then hnd_pass else hnd_again)
  row-processed m ms bufs zs s log n v d =
      let bound = v.bound in
      row-added lib cb m ms bufs zs s log v.described d
      ∙ ap (λ (q : SetState × HndStatus). (reader q.0 log, q.1))
          (add_row-counted lib cb (begun lib cb s) (rows_of s.rowset) zs n v.limited v.counter
            (omega arith))

  taken-Limited :
      (s : SetState) (columns : List FieldMeta) (n : ℕ) (zs : List Zval)
      → Limited s columns (suc n)
      → Limited (row_taken s n zs) columns n
  taken-Limited s columns n zs v =
      let bound = v.bound in
      record {
        described = record { known = v.described.known; count = v.described.count };
        limited = v.limited;
        counter = refl;
        bound = omega arith;
        more_rows = v.more_rows;
      }

  first-row :
      (m : FieldMeta) (ms : List FieldMeta) (rows : List (List Zval)) (more : Bool)
      (bufs : List Bytes) (zs : List Zval) (ps : List Packet) (rest : List Frame) (s : SetState)
      (log end : Log)
      → Limited s (m ∷ ms) 1
      → DecodesTo lib cb (m ∷ ms) bufs zs
      → Rows lib cb (m ∷ ms) log rows more end ps
      → Suspends (m ∷ ms) more end 1 (row bufs ∷ ps) rest s log (zs ∷ rows)
  unfolding stmt_execute_handlers process_received_message
  first-row m ms rows more bufs zs ps rest s log end v d later = (
    zs ∷ [],
    rows,
    ps,
    log,
    row_taken s 0 zs,
    refl,
    refl,
    receive_last (handlers lib cb) (row bufs) (map plain ps ++ rest) (reader s log)
        (reader (row_taken s 0 zs) log, hnd_pass) (row-processed m ms bufs zs s log 0 v d),
    later,
    record {
      columns_held = record { known = v.described.known; count = v.described.count };
      rows_held = refl;
      rows_flag = v.more_rows;
    },
  )

  row-goes_on :
      (m : FieldMeta) (ms : List FieldMeta) (bufs : List Bytes) (zs : List Zval) (ps : List Packet)
      (rest : List Frame) (s : SetState) (log : Log) (n : ℕ)
      → Limited s (m ∷ ms) (suc (suc n))
      → DecodesTo lib cb (m ∷ ms) bufs zs
      → read lib cb (row bufs ∷ ps) rest s log ≡ read lib cb ps rest (row_taken s (suc n) zs) log
  unfolding stmt_execute_handlers process_received_message
  row-goes_on m ms bufs zs ps rest s log n v d =
      let goes : (suc n == 0) ≡ false = ground arith in
      receive_plain (handlers lib cb) (row bufs) (map plain ps ++ rest) (reader s log)
        (reader (row_taken s (suc n) zs) log)
        (row-processed m ms bufs zs s log (suc n) v d
          ∙ ap
              (λ (c : Bool).
                (reader (row_taken s (suc n) zs) log, if c then hnd_pass else hnd_again))
              goes)

  -- A row before what another call does.
  after_row :
      (columns : List FieldMeta) (more : Bool) (end : Log) (n : ℕ) (bufs : List Bytes)
      (zs : List Zval) (rows : List (List Zval)) (ps : List Packet) (rest : List Frame)
      (s : SetState) (log : Log)
      → read lib cb (row bufs ∷ ps) rest s log ≡ read lib cb ps rest (row_taken s (suc n) zs) log
      → Suspends columns more end (suc n) ps rest (row_taken s (suc n) zs) log rows
        ⊎ ReadsAll columns more end (suc n) ps rest (row_taken s (suc n) zs) log rows
      → Suspends columns more end (suc (suc n)) (row bufs ∷ ps) rest s log (zs ∷ rows)
        ⊎ ReadsAll columns more end (suc (suc n)) (row bufs ∷ ps) rest s log (zs ∷ rows)
  after_row columns more end n bufs zs rows ps rest s log e (inl r) = inl (
    zs ∷ r.0,
    r.1,
    r.2,
    r.3,
    r.4,
    ap (λ (l : List (List Zval)). zs ∷ l) r.5,
    ap (λ (k : ℕ). suc k) r.6,
    e ∙ r.7,
    r.8,
    record {
      columns_held = r.9.columns_held;
      rows_held = r.9.rows_held ∙ append_assoc (rows_of s.rowset) (zs ∷ []) r.0;
      rows_flag = r.9.rows_flag;
    },
  )
  after_row columns more end n bufs zs rows ps rest s log e (inr r) =
      let fewer = r.0 in
      inr (
        omega arith,
        r.1,
        e ∙ r.2,
        r.3,
        record {
          columns_held = r.4.columns_held;
          rows_held = r.4.rows_held ∙ append_assoc (rows_of s.rowset) (zs ∷ []) rows;
          rows_flag = r.4.rows_flag;
        },
      )

  -- The rows of a set, read by a call that asks for `n + 1` of them: either it takes that many, its
  -- rows held behind those that were held, and leaves the others unread as the rows of the same
  -- set, or there are fewer and it takes them all and reads to the end of the set.
  pub Limited-Rows :
      (m : FieldMeta) (ms : List FieldMeta) (rows : List (List Zval)) (more : Bool)
      (ps : List Packet) (rest : List Frame) (s : SetState) (log end : Log) (n : ℕ)
      → Limited s (m ∷ ms) (suc n)
      → Rows lib cb (m ∷ ms) log rows more end ps
      → Suspends (m ∷ ms) more end (suc n) ps rest s log rows
        ⊎ ReadsAll (m ∷ ms) more end (suc n) ps rest s log rows
  Limited-Rows m ms _ more _ rest s log end zero v
        (next_row {bufs = bufs} {zs = zs} {rows = rows} {ps = ps} d later) =
      inl (first-row m ms rows more bufs zs ps rest s log end v d later)
  Limited-Rows m ms _ more _ rest s log end (suc n) v
        (next_row {bufs = bufs} {zs = zs} {rows = rows} {ps = ps} d later) =
      after_row (m ∷ ms) more end n bufs zs rows ps rest s log
        (row-goes_on m ms bufs zs ps rest s log n v d)
        (Limited-Rows m ms rows more ps rest (row_taken s (suc n) zs) log end n
          (taken-Limited s (m ∷ ms) (suc n) zs v) later)
  Limited-Rows m ms rows more _ rest s log end n v
        (rows_notice {log' = log'} {n = told} {ps = ps} t later) =
      elim (Limited-Rows m ms rows more ps rest s log' end n v later) [
        | inl r ↦ inl (
          r.0,
          r.1,
          r.2,
          r.3,
          r.4,
          r.5,
          r.6,
          notice-reads lib cb told ps rest s log log' t ∙ r.7,
          r.8,
          r.9,
        )
        | inr r ↦ inr (r.0, r.1, notice-reads lib cb told ps rest s log log' t ∙ r.2, r.3, r.4)
      ]
  Limited-Rows m ms _ _ _ rest s log end n v (last_set {ps = ps} tail) = inr (
    omega arith,
    no_more_results lib cb (ended_set lib cb false s),
    fetch_done-reads lib cb ps rest s log
        ∙ read-Tail lib cb ps rest (ended_set lib cb false s) log end tail,
    refl,
    record {
      columns_held = record { known = v.described.known; count = v.described.count };
      rows_held = sym (append-nil (rows_of s.rowset));
      rows_flag = refl;
    },
  )
  Limited-Rows m ms _ _ _ rest s log _ n v more_sets = inr (
    omega arith,
    ended_set lib cb true s,
    more-reads lib cb rest s log,
    refl,
    record {
      columns_held = record { known = v.described.known; count = v.described.count };
      rows_held = sym (append-nil (rows_of s.rowset));
      rows_flag = refl;
    },
  )
