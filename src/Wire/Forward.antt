-- ===== src/Wire/Forward.antt =====
-- The first read of an answer with a limit on the rows, as get_fwd_result of
-- xmysqlnd/xmysqlnd_stmt.cc begins it.
use pecl_database_mysql_xdev.Common.{
  ℕ, suc, ◌≡◌, ◌≢◌, ◌<◌, ◌^◌, ◌⊎◌, inl, inr, refl, sym, append-nil, ap, subst, ◌∙◌, Bool, true,
  false, List, [], ◌∷◌, ◌++◌, length, length-append, arith,
}
use pecl_database_mysql_xdev.Fields.{Zval, Library}
use pecl_database_mysql_xdev.Fields.Types.{FieldMeta}
use pecl_database_mysql_xdev.Wire.{Packet, Frame}
use pecl_database_mysql_xdev.Wire.Notices.{Log}
use pecl_database_mysql_xdev.Wire.ResultSets.{SetState, Callbacks, init_read}
use pecl_database_mysql_xdev.Wire.Answers.{
  Answer, length-Answer, column, column_notice, start_rows, no_set,
}
use pecl_database_mysql_xdev.Wire.Row.{rows_of, Described}
use pecl_database_mysql_xdev.Wire.Reading.{
  notice-reads, column-reads, read-Tail, no_more_results, with_column,
}
use pecl_database_mysql_xdev.Wire.Prefetch.{Suspends, ReadsAll, Limited-Rows}

abbrev any_columns : List FieldMeta → Bool
any_columns [] = false
any_columns (m ∷ ms) = true

any_columns-snoc : (l : List FieldMeta) (m : FieldMeta) → any_columns (l ++ m ∷ []) ≡ true
any_columns-snoc [] m = refl
any_columns-snoc (c ∷ l) m = refl

module _ (lib : Library) (cb : Callbacks) where
  -- The columns that were read are known, and no row has been taken.
  record Starting (s : SetState) (before : List FieldMeta) (n : ℕ) : Type 0 where
    described : Described lib cb s before
    limited : s.fwd_prefetch_count ≢ 0
    counter : s.prefetch_counter ≡ n
    bound : n < 2 ^ 64
    flag : s.has_more_rows_in_set ≡ any_columns before

  start-column :
      (s : SetState) (before : List FieldMeta) (m : FieldMeta) (n : ℕ)
      → length (before ++ m ∷ []) < 2 ^ 16
      → Starting s before n
      → Starting (with_column lib cb s m) (before ++ m ∷ []) n
  start-column s before m n fits v =
      let size = length-append {0} before (m ∷ []) in
      let count = v.described.count in
      record {
        described = record {
          known = ap (λ (l : List FieldMeta). l ++ m ∷ []) v.described.known;
          count = omega arith;
        };
        limited = v.limited;
        counter = v.counter;
        bound = v.bound;
        flag = sym (any_columns-snoc before m);
      }

  limited-reads :
      (before columns : List FieldMeta) (rows : List (List Zval)) (more : Bool) (ps : List Packet)
      (rest : List Frame) (s : SetState) (log end : Log) (n : ℕ)
      → length columns < 2 ^ 16
      → Starting s before (suc n)
      → Answer lib cb before log columns rows more end ps
      → Suspends lib cb columns more end (suc n) ps rest s log rows
        ⊎ ReadsAll lib cb columns more end (suc n) ps rest s log rows
  limited-reads before columns rows more _ rest s log end n fits v
        (column {m = m} {ps = ps} later) =
      let shorter = length-Answer lib cb (before ++ m ∷ []) columns rows more ps log end later in
      let next = start-column s before m (suc n) (omega arith) v in
      elim (limited-reads (before ++ m ∷ []) columns rows more ps rest (with_column lib cb s m) log
        end n fits next later) [
          | inl r ↦ inl (
            r.0,
            r.1,
            r.2,
            r.3,
            r.4,
            r.5,
            r.6,
            column-reads lib cb m ps rest s log ∙ r.7,
            r.8,
            r.9,
          )
          | inr r ↦ inr (r.0, r.1, column-reads lib cb m ps rest s log ∙ r.2, r.3, r.4)
        ]
  limited-reads before columns rows more _ rest s log end n fits v
        (column_notice {log' = log'} {n = told} {ps = ps} t later) =
      elim (limited-reads before columns rows more ps rest s log' end n fits v later) [
        | inl r ↦ inl (
          r.0,
          r.1,
          r.2,
          r.3,
          r.4,
          r.5,
          r.6,
          notice-reads lib cb told ps rest s log log' t ∙ r.7,
          r.8,
          r.9,
        )
        | inr r ↦ inr (r.0, r.1, notice-reads lib cb told ps rest s log log' t ∙ r.2, r.3, r.4)
      ]
  limited-reads before _ rows more ps rest s log end n fits v
        (start_rows {m = m} {ms = ms} e later) =
      Limited-Rows lib cb m ms rows more ps rest s log end n
        (record {
          described = subst (λ (l : List FieldMeta). Described lib cb s l) e v.described;
          limited = v.limited;
          counter = v.counter;
          bound = v.bound;
          more_rows = v.flag ∙ ap any_columns e;
        })
        later
  limited-reads _ _ _ _ ps rest s log end n fits v (no_set tail) = inr (
    omega arith,
    no_more_results lib cb s,
    read-Tail lib cb ps rest s log end tail,
    refl,
    record {
      columns_held = record { known = v.described.known; count = v.described.count };
      rows_held = sym (append-nil (rows_of s.rowset));
      rows_flag = v.flag;
    },
  )

  -- An answer of the server, of fewer than 2^16 columns, read with a limit of `n + 1` rows from the start: the columns are
  -- read, and either that many rows are taken, more are announced and the others stay unread as
  -- the rows of the same set, or there are fewer, which are all taken, and the answer is read to its
  -- end and no further.
  pub limited-Answer :
      (columns : List FieldMeta) (rows : List (List Zval)) (more : Bool) (ps : List Packet)
      (rest : List Frame) (log end : Log) (n : ℕ)
      → length columns < 2 ^ 16
      → suc n < 2 ^ 64
      → Answer lib cb [] log columns rows more end ps
      → Suspends lib cb columns more end (suc n) ps rest (init_read (suc n)) log rows
        ⊎ ReadsAll lib cb columns more end (suc n) ps rest (init_read (suc n)) log rows
  limited-Answer columns rows more ps rest log end n fits bound answer =
      limited-reads [] columns rows more ps rest (init_read (suc n)) log end n fits
        (record {
          described = record { known = refl; count = refl };
          limited = omega arith;
          counter = refl;
          bound = bound;
          flag = refl;
        })
        answer
