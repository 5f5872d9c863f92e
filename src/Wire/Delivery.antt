-- ===== src/Wire/Delivery.antt =====
-- What the reader of result sets makes of one row (xmysqlnd/xmysqlnd_wireprotocol.cc and
-- xmysqlnd/xmysqlnd_stmt.cc).
use pecl_database_mysql_xdev.Common.{
  ℕ, suc, ◌+◌, ◌≡◌, refl, sym, ap, subst, ◌∙◌, ◌==◌, true, false, if◌then◌else◌, List, [], ◌∷◌,
  ◌++◌, append_assoc, Option, some, Result, ok, Status, Bytes, length, length-append, get_elem?,
  arith,
}
use pecl_database_mysql_xdev.Fields.{Zval, Library, Fault, Decoded}
use pecl_database_mysql_xdev.Fields.Types.{FieldMeta, field_to_zval}
use pecl_database_mysql_xdev.Wire.{HndStatus, hnd_again}
use pecl_database_mysql_xdev.Wire.ResultSets.{
  SetState, Callbacks, created, add_row, add_field, add_decoded, decode, decode_field, on_row_field,
  goes_on, read_fields,
}
use pecl_database_mysql_xdev.Wire.Answers.{DecodesTo, nil, cons}

pub get_elem?-middle {ℓ} :
    {A : Type ℓ} (xs : List A) (y : A) (ys : List A) → get_elem? (xs ++ y ∷ ys) (length xs) ≡ some y
get_elem?-middle [] y ys = refl
get_elem?-middle (x ∷ xs) y ys = get_elem?-middle xs y ys

get_elem?-at {ℓ} :
    {A : Type ℓ} (xs past : List A) (y : A) (ys : List A) (n : ℕ)
    → xs ≡ past ++ y ∷ ys
    → length past ≡ n
    → get_elem? xs n ≡ some y
get_elem?-at xs past y ys n e k =
    ap (λ zs. get_elem? zs n) e
    ∙ subst (λ (i : ℕ). get_elem? (past ++ y ∷ ys) i ≡ some y) k (get_elem?-middle past y ys)

created-some :
    (meta : List FieldMeta) (rows : List (List Zval)) → created meta (some rows) ≡ some rows
created-some [] rows = refl
created-some (m ∷ meta) rows = refl

module _ (lib : Library) (cb : Callbacks) where
  -- A field that is decoded, with the row set made.
  field_added :
      (buf : Bytes) (idx : ℕ) (s : SetState) (m : FieldMeta) (rows : List (List Zval))
      (status : Status) (z : Zval)
      → created s.meta s.rowset ≡ some rows
      → get_elem? s.meta idx ≡ some m
      → field_to_zval lib m buf ≡ ok (status, z)
      → on_row_field lib buf idx s ≡ add_field s idx rows (ok (status, z))
  unfolding on_row_field
  field_added buf idx s m rows status z c g d =
      ap (λ (o : Option (List (List Zval))). decode_field lib s idx buf o) c
      ∙ (ap (λ (o : Option FieldMeta). add_decoded s idx rows (decode lib o buf)) g
          ∙ ap (λ (r : Result Fault Decoded). add_field s idx rows r) d)

  -- The values of the row, with those before `idx`.
  abbrev pub values : ℕ → List Zval → List Zval
  values idx row = if idx == 0 then [] else row

  abbrev pub row_grown : SetState → List (List Zval) → List Zval → SetState
  row_grown s rows row = record s { rowset = some rows; current_row = row }

  pub field_between :
      (s : SetState) (idx : ℕ) (rows : List (List Zval)) (status : Status) (z : Zval)
      (before : List Zval)
      → values idx s.current_row ≡ before
      → (idx + 1 == length s.meta) ≡ false
      → add_field s idx rows (ok (status, z)) ≡ (row_grown s rows (before ++ z ∷ []), hnd_again)
  field_between s idx rows status z before v e =
      rw e (ap (λ (row : List Zval). (row_grown s rows (row ++ z ∷ []), hnd_again)) v)

  field_last :
      (s : SetState) (idx : ℕ) (rows : List (List Zval)) (status : Status) (z : Zval)
      (before : List Zval)
      → values idx s.current_row ≡ before
      → (idx + 1 == length s.meta) ≡ true
      → add_field s idx rows (ok (status, z)) ≡ add_row s rows (before ++ z ∷ [])
  field_last s idx rows status z before v e =
      rw e (ap (λ (row : List Zval). add_row s rows (row ++ z ∷ [])) v)

  read_fields-step :
      (fields : List Bytes) (left idx : ℕ) (last : HndStatus) (s t : SetState) (buf : Bytes)
      → get_elem? fields idx ≡ some buf
      → on_row_field lib buf idx s ≡ (t, hnd_again)
      → read_fields lib fields (suc left) idx last s
        ≡ read_fields lib fields left (idx + 1) hnd_again t
  unfolding read_fields
  read_fields-step fields left idx last s t buf g e =
      rw (g, read_fields)
        (rw (e, read_fields)
          (ap (λ (q : SetState × HndStatus). read_fields lib fields left (idx + 1) q.1 q.0) e))

  add_row-goes_on :
      (s : SetState) (rows : List (List Zval)) (row : List Zval)
      → goes_on lib (add_row s rows row).1 ≡ true
  add_row-goes_on s rows row = ground arith

  read_fields-last :
      (fields : List Bytes) (idx : ℕ) (last : HndStatus) (s : SetState) (r : SetState × HndStatus)
      (buf : Bytes)
      → get_elem? fields idx ≡ some buf
      → on_row_field lib buf idx s ≡ r
      → goes_on lib r.1 ≡ true
      → read_fields lib fields 1 idx last s ≡ r
  unfolding read_fields
  read_fields-last fields idx last s r buf g e goes =
      let goes' = ap (λ (q : SetState × HndStatus). goes_on lib q.1) e ∙ goes in
      rw (g, read_fields) (rw (goes', read_fields) e)

  -- Where the loop stands: past `before` columns with their fields and values.
  pub record At (s : SetState) (fields : List Bytes) (rows : List (List Zval))
      (before ms : List FieldMeta) (bufs past : List Bytes) (values_before : List Zval)
      : Type 0 where
    pub columns : s.meta ≡ before ++ ms
    pub all_fields : fields ≡ past ++ bufs
    pub places : length past ≡ length before
    pub made : created s.meta s.rowset ≡ some rows
    pub kept : values (length before) s.current_row ≡ values_before

  next_place :
      (s : SetState) (fields : List Bytes) (rows : List (List Zval)) (before : List FieldMeta)
      (m m' : FieldMeta) (ms : List FieldMeta) (bufs past : List Bytes) (values_before : List Zval)
      (buf : Bytes) (z : Zval)
      → At s fields rows before (m ∷ m' ∷ ms) (buf ∷ bufs) past values_before
      → At
          (row_grown s rows (values_before ++ z ∷ []))
          fields
          rows
          (before ++ m ∷ [])
          (m' ∷ ms)
          bufs
          (past ++ buf ∷ [])
          (values_before ++ z ∷ [])
  next_place s fields rows before m m' ms bufs past values_before buf z a =
      let columns_past = length-append {0} before (m ∷ []) in
      let fields_past = length-append {0} past (buf ∷ []) in
      let places = a.places in
      let later : (length (before ++ m ∷ []) == 0) ≡ false = ground arith in
      record {
        columns = a.columns ∙ sym (append_assoc before (m ∷ []) (m' ∷ ms));
        all_fields = a.all_fields ∙ sym (append_assoc past (buf ∷ []) bufs);
        places = omega arith;
        made = created-some s.meta rows;
        kept = rw later refl;
      }

  moved_on :
      (s : SetState) (fields : List Bytes) (rows : List (List Zval)) (before : List FieldMeta)
      (m m' : FieldMeta) (ms : List FieldMeta) (values_before : List Zval) (z : Zval)
      (zs : List Zval)
      → (read_fields lib fields
            (length (m' ∷ ms))
            (length (before ++ m ∷ []))
            hnd_again
            (row_grown s rows (values_before ++ z ∷ []))
          ≡ add_row s rows ((values_before ++ z ∷ []) ++ zs))
      → read_fields lib fields
          (length (m' ∷ ms))
          (length before + 1)
          hnd_again
          (row_grown s rows (values_before ++ z ∷ []))
        ≡ add_row s rows (values_before ++ z ∷ zs)
  moved_on s fields rows before m m' ms values_before z zs ih =
      ap
        (λ (k : ℕ).
          read_fields lib fields (length (m' ∷ ms)) k hnd_again
            (row_grown s rows (values_before ++ z ∷ [])))
        (sym (length-append {0} before (m ∷ [])))
      ∙ (ih ∙ ap (λ (row : List Zval). add_row s rows row) (append_assoc values_before (z ∷ []) zs))

  pub read_fields-DecodesTo :
      (s : SetState) (fields : List Bytes) (rows : List (List Zval)) (before : List FieldMeta)
      (m : FieldMeta) (ms : List FieldMeta) (bufs past : List Bytes) (values_before zs : List Zval)
      (last : HndStatus)
      → At s fields rows before (m ∷ ms) bufs past values_before
      → DecodesTo lib cb (m ∷ ms) bufs zs
      → read_fields lib fields (length (m ∷ ms)) (length before) last s
        ≡ add_row s rows (values_before ++ zs)
  read_fields-DecodesTo s fields rows before m [] _ past values_before _ last a
        (cons {buf = buf} {z = z} {status = status} d nil) =
      let hit : get_elem? fields (length before) ≡ some buf =
        get_elem?-at fields past buf [] (length before) a.all_fields a.places in
      let col : get_elem? s.meta (length before) ≡ some m =
        get_elem?-at s.meta before m [] (length before) a.columns refl in
      let n = ap (λ (l : List FieldMeta). length l) a.columns in
      let sum = length-append {0} before (m ∷ []) in
      let end : (length before + 1 == length s.meta) ≡ true = ground arith in
      read_fields-last fields (length before) last s (add_row s rows (values_before ++ z ∷ [])) buf
        hit
        (field_added buf (length before) s m rows status z a.made col d
          ∙ field_last s (length before) rows status z values_before a.kept end)
        (add_row-goes_on s rows (values_before ++ z ∷ []))
  read_fields-DecodesTo s fields rows before m (m' ∷ ms) _ past values_before _ last a
        (cons {buf = buf} {bufs = bufs} {z = z} {zs = zs} {status = status} d ds) =
      let hit : get_elem? fields (length before) ≡ some buf =
        get_elem?-at fields past buf bufs (length before) a.all_fields a.places in
      let col : get_elem? s.meta (length before) ≡ some m =
        get_elem?-at s.meta before m (m' ∷ ms) (length before) a.columns refl in
      let n = ap (λ (l : List FieldMeta). length l) a.columns in
      let sum = length-append {0} before (m ∷ m' ∷ ms) in
      let between : (length before + 1 == length s.meta) ≡ false = ground arith in
      let t = row_grown s rows (values_before ++ z ∷ []) in
      read_fields-step fields (length (m' ∷ ms)) (length before) last s t buf hit (
        field_added buf (length before) s m rows status z a.made col d
        ∙ field_between s (length before) rows status z values_before a.kept between)
      ∙ moved_on s fields rows before m m' ms values_before z zs (
          read_fields-DecodesTo t fields rows (before ++ m ∷ []) m' ms bufs (past ++ buf ∷ [])
            (values_before ++ z ∷ []) zs hnd_again
            (next_place s fields rows before m m' ms bufs past values_before buf z a) ds)
