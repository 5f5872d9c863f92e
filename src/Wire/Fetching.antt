-- ===== src/Wire/Fetching.antt =====
-- What get_fwd_result of xmysqlnd/xmysqlnd_stmt.cc gives of an answer of the server, and of the set
-- behind the first one.
use pecl_database_mysql_xdev.Common.{
  ℕ, zero, suc, ◌+◌, ◌≡◌, ◌<◌, refl, ap, ◌∙◌, ◌==◌, Bool, true, false, List, [], ◌∷◌, ◌++◌, map,
  Option, none, pass, Bytes, length, length-append, take, take-append_of_length, leb, ◌⊎◌, inl, inr,
  ◌^◌, ◌%◌, sym, arith,
}
use pecl_database_mysql_xdev.Fields.{Zval, Library}
use pecl_database_mysql_xdev.Fields.Types.{FieldMeta}
use pecl_database_mysql_xdev.Wire.{
  Ending, returned, no_meaning, Packet, column_metadata, row, Frame, plain,
  process_received_message, Received,
}
use pecl_database_mysql_xdev.Wire.Notices.{Log, no_log}
use pecl_database_mysql_xdev.Wire.ResultSets.{
  SetState, init_read, Reader, Callbacks, on_rset_row, stmt_execute_handlers,
}
use pecl_database_mysql_xdev.Wire.Batches.{receive_last}
use pecl_database_mysql_xdev.Wire.Overrun.{short_row, ended_undefined}
use pecl_database_mysql_xdev.Wire.Prefetch.{Suspends, ReadsAll, Left}
use pecl_database_mysql_xdev.Wire.Forward.{limited-Answer}
use pecl_database_mysql_xdev.Wire.Answers.{Answer}
use pecl_database_mysql_xdev.Wire.Row.{rows_of, reader, Described}
use pecl_database_mysql_xdev.Wire.Reading.{handlers, read, column-reads, with_column}
use pecl_database_mysql_xdev.Wire.Statements.{fwd_result, unless_none, get_fwd_result}

take_all {ℓ} : {A : Type ℓ} (xs : List A) (n : ℕ) → length xs < n → take n xs ≡ xs
take_all xs zero h = absurd (omega arith)
take_all [] (suc n) h = refl
take_all (x ∷ xs) (suc n) h = ap (λ l. x ∷ l) (take_all xs n (omega arith))

module _ (lib : Library) (cb : Callbacks) where
  status-none :
      (o : Ending) (r : Reader) (rest : List Frame)
      → o ≡ no_meaning
      → (fwd_result o r rest).status ≡ no_meaning
  status-none o r rest e = ap (λ (p : Ending). (fwd_result p r rest).status) e

  second_set :
      (s : SetState) (log : Log) (c m : FieldMeta) (cs : List FieldMeta) (buf : Bytes)
      (rest : List Frame)
      → Described lib cb s (c ∷ cs)
      → length (c ∷ cs) + 1 < 2 ^ 16
      → (read lib cb (column_metadata m ∷ row (buf ∷ []) ∷ []) rest s log).0 ≡ no_meaning
  unfolding process_received_message stmt_execute_handlers
  second_set s log c m cs buf rest v fits =
      let sum = length-append {0} cs (m ∷ []) in
      let count = v.count in
      let next = with_column lib cb s m in
      let several : 0 < length (cs ++ m ∷ []) = omega arith in
      let two : (s.field_count + 1) % 2 ^ 16 ≡ suc (suc (length cs)) = omega arith in
      ap (λ (r : Received (handlers lib cb)). r.0)
        (column-reads lib cb m (row (buf ∷ []) ∷ []) rest s log)
      ∙ (ap (λ (r : Received (handlers lib cb)). r.0)
            (receive_last (handlers lib cb) (row (buf ∷ [])) rest (reader next log)
              (on_rset_row lib (buf ∷ []) (reader next log)) refl)
          ∙ ended_undefined lib cb rest (on_rset_row lib (buf ∷ []) (reader next log)) (
              short_row lib cb next log c (cs ++ m ∷ []) buf (length cs)
                (ap (λ (l : List FieldMeta). l ++ m ∷ []) v.known) several two))

  -- Where a forward read has given a set of one column or more, but fewer than 2^16 - 1, the next set is read with the
  -- columns of the first one still counted: if it has a single column and a row, the row is read
  -- past its field, and the call has no meaning.
  pub get_fwd_result-again :
      (s : SetState) (log : Log) (c m : FieldMeta) (cs : List FieldMeta) (buf : Bytes)
      (rest : List Frame) (n : ℕ)
      → Described lib cb s (c ∷ cs)
      → length (c ∷ cs) + 1 < 2 ^ 16
      → (get_fwd_result lib cb
          (suc n)
          (map plain (column_metadata m ∷ row (buf ∷ []) ∷ []) ++ rest)
          (record { partial_read_started = true; read_ctx = reader s log })).status
        ≡ no_meaning
  unfolding get_fwd_result stmt_execute_handlers
  get_fwd_result-again s log c m cs buf rest n v fits =
      let limited = record s { fwd_prefetch_count = suc n; prefetch_counter = suc n } in
      let r = read lib cb (column_metadata m ∷ row (buf ∷ []) ∷ []) rest limited log in
      let some_rows : (suc n == 0) ≡ false = ground arith in
      ap
        (λ (b : Bool).
          (unless_none b (reader limited log)
            (map plain (column_metadata m ∷ row (buf ∷ []) ∷ []) ++ rest) r).status)
        some_rows
      ∙ status-none r.0 r.1 r.2 (
          second_set limited log c m cs buf rest (record { known = v.known; count = v.count }) fits)

  all_or_first :
      (s : SetState) (columns : List FieldMeta) (rows : List (List Zval)) (more : Bool)
      (ps : List Packet) (rest : List Frame) (log end : Log) (n : ℕ)
      → Suspends lib cb columns more end n ps rest s log rows
        ⊎ ReadsAll lib cb columns more end n ps rest s log rows
      → s.rowset ≡ none
      → (t : SetState) × (log' : Log) × (left : List Frame) × (read lib cb ps rest s log
          ≡ (returned pass, reader t log', left))
        × Left lib cb t columns (take n rows) (leb n (length rows))
  all_or_first s columns rows more ps rest log end n (inl r) e =
      let size = length-append {0} r.0 r.1 in
      let whole = ap (λ (l : List (List Zval)). length l) r.5 in
      let number = r.6 in
      let is_more : leb n (length rows) ≡ true = ground arith in
      (
        r.4,
        r.3,
        map plain r.2 ++ rest,
        r.7,
        record {
          columns_held = r.9.columns_held;
          rows_held =
              r.9.rows_held
              ∙ (ap (λ (o : Option (List (List Zval))). rows_of o ++ r.0) e
                  ∙ (sym (take-append_of_length r.0 r.1 n number)
                      ∙ ap (λ (l : List (List Zval)). take n l) (sym r.5)));
          rows_flag = r.9.rows_flag ∙ sym is_more;
        },
      )
  all_or_first s columns rows more ps rest log end n (inr r) e =
      let fewer = r.0 in
      let is_end : leb n (length rows) ≡ false = ground arith in
      (
        r.1,
        end,
        rest,
        r.2,
        record {
          columns_held = r.4.columns_held;
          rows_held =
              r.4.rows_held
              ∙ (ap (λ (o : Option (List (List Zval))). rows_of o ++ rows) e
                  ∙ sym (take_all rows n fewer));
          rows_flag = r.4.rows_flag ∙ sym is_end;
        },
      )

  -- The first forward read of an answer of the grammar `Answer` (plain frames, no error, and notices
  -- by which the reading goes on), of fewer than 2^16 columns, for `n + 1` rows, a number of 64 bits, passes; it holds the
  -- columns and the first `n + 1` rows, or all where there are fewer, and says that more rows may
  -- come exactly where there are `n + 1` or more.
  pub get_fwd_result-Answer :
      (columns : List FieldMeta) (rows : List (List Zval)) (more : Bool) (ps : List Packet)
      (rest : List Frame) (s : SetState) (log end : Log) (n : ℕ)
      → length columns < 2 ^ 16
      → suc n < 2 ^ 64
      → Answer lib cb [] (no_log log.session) columns rows more end ps
      → (t : SetState) × (log' : Log) × (left : List Frame) × (get_fwd_result lib cb
            (suc n)
            (map plain ps ++ rest)
            (record { partial_read_started = false; read_ctx = reader s log })
          ≡ fwd_result (returned pass) (reader t log') left)
        × Left lib cb t columns (take (suc n) rows) (leb (suc n) (length rows))
  unfolding get_fwd_result stmt_execute_handlers
  get_fwd_result-Answer columns rows more ps rest s log end n fits bound answer =
      let r =
        all_or_first (init_read (suc n)) columns rows more ps rest (no_log log.session) end (suc n)
          (limited-Answer lib cb columns rows more ps rest (no_log log.session) end n fits bound
            answer)
          refl in
      let some_rows : (suc n == 0) ≡ false = ground arith in
      let ctx = reader (init_read (suc n)) (no_log log.session) in
      (
        r.0,
        r.1,
        r.2,
        ap
              (λ (b : Bool).
                unless_none b ctx (map plain ps ++ rest)
                  (read lib cb ps rest (init_read (suc n)) (no_log log.session)))
              some_rows
            ∙ ap (λ (q : Received (handlers lib cb)). fwd_result q.0 q.1 q.2) r.3,
        r.4,
      )
