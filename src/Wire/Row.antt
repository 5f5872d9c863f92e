-- ===== src/Wire/Row.antt =====
-- A row of a set whose columns are described (stmt_execute_on_RSET_ROW of
-- xmysqlnd/xmysqlnd_wireprotocol.cc): it is decoded and added, whatever the limit on the rows.
use pecl_database_mysql_xdev.Common.{
  ℕ, suc, ◌+◌, ◌≡◌, ◌≢◌, ◌<◌, ◌%◌, ◌^◌, ◌-◌, ◌==◌, if◌then◌else◌, refl, ap, ◌∙◌, true, false, List,
  [], ◌∷◌, ◌++◌, Option, none, some, Bytes, length, arith,
}
use pecl_database_mysql_xdev.Fields.{Zval, Library}
use pecl_database_mysql_xdev.Fields.Types.{FieldMeta}
use pecl_database_mysql_xdev.Wire.{HndStatus, hnd_pass, hnd_again}
use pecl_database_mysql_xdev.Wire.Notices.{Log}
use pecl_database_mysql_xdev.Wire.ResultSets.{
  SetState, Reader, Callbacks, created, add_row, on_rset_row, read_fields,
}
use pecl_database_mysql_xdev.Wire.Answers.{DecodesTo}
use pecl_database_mysql_xdev.Wire.Delivery.{row_grown, read_fields-DecodesTo}

abbrev pub reader : SetState → Log → Reader
reader s log = record { set = s; log = log; error_no = none }

abbrev pub rows_of : Option (List (List Zval)) → List (List Zval)
rows_of none = []
rows_of (some rows) = rows

module _ (lib : Library) (cb : Callbacks) where
  -- The columns are known.
  pub record Described (s : SetState) (columns : List FieldMeta) : Type 0 where
    pub known : s.meta ≡ columns
    pub count : s.field_count ≡ length columns

  pub created-rows_of :
      (m : FieldMeta) (ms : List FieldMeta) (rowset : Option (List (List Zval)))
      → created (m ∷ ms) rowset ≡ some (rows_of rowset)
  created-rows_of m ms none = refl
  created-rows_of m ms (some rows) = refl

  abbrev pub begun : SetState → SetState
  begun s = record s { has_more_results = true }

  pub row-added :
      (m : FieldMeta) (ms : List FieldMeta) (bufs : List Bytes) (zs : List Zval) (s : SetState)
      (log : Log)
      → Described s (m ∷ ms)
      → DecodesTo lib cb (m ∷ ms) bufs zs
      → on_rset_row lib bufs (reader s log) ≡ (
        reader (add_row (begun s) (rows_of s.rowset) zs).0 log,
        (add_row (begun s) (rows_of s.rowset) zs).1,
      )
  unfolding on_rset_row
  row-added m ms bufs zs s log v d =
      let fields =
        ap (λ (n : ℕ). read_fields lib bufs n 0 hnd_again (begun s)) v.count
        ∙ read_fields-DecodesTo lib cb (begun s) bufs (rows_of s.rowset) [] m ms bufs [] [] zs
            hnd_again
            (record {
              columns = v.known;
              all_fields = refl;
              places = refl;
              made =
                  ap (λ (l : List FieldMeta). created l s.rowset) v.known
                  ∙ created-rows_of m ms s.rowset;
              kept = refl;
            })
            d in
      ap (λ (q : SetState × HndStatus). (reader q.0 log, q.1)) fields

  pub add_row-unlimited :
      (s : SetState) (rows : List (List Zval)) (row : List Zval)
      → s.fwd_prefetch_count ≡ 0
      → add_row s rows row ≡ (row_grown lib cb s (rows ++ row ∷ []) row, hnd_again)
  add_row-unlimited s rows row e =
      let unlimited : (s.fwd_prefetch_count == 0) ≡ true = ground arith in rw unlimited refl

  abbrev pub counted : SetState → ℕ → List (List Zval) → List Zval → SetState
  counted s n rows row = record s {
    rowset = some (rows ++ row ∷ []);
    current_row = row;
    prefetch_counter = n;
  }

  -- A counter of a limited read, which falls by one.
  pub add_row-counted :
      (s : SetState) (rows : List (List Zval)) (row : List Zval) (n : ℕ)
      → s.fwd_prefetch_count ≢ 0
      → s.prefetch_counter ≡ suc n
      → n < 2 ^ 64
      → add_row s rows row ≡ (counted s n rows row, if n == 0 then hnd_pass else hnd_again)
  add_row-counted s rows row n limited e bound =
      let is_limited : (s.fwd_prefetch_count == 0) ≡ false = ground arith in
      let falls : (s.prefetch_counter + (2 ^ 64 - 1)) % 2 ^ 64 ≡ n = omega arith in
      rw (is_limited, falls) refl
