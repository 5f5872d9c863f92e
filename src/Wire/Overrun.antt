-- ===== src/Wire/Overrun.antt =====
-- What a compressed batch does with the messages behind the end of a set (xmysqlnd_receive_message
-- with stmt_execute_handlers, xmysqlnd/xmysqlnd_wireprotocol.cc).
use pecl_database_mysql_xdev.Common.{
  ℕ, suc, ◌+◌, ◌==◌, ◌≡◌, ◌<◌, ◌%◌, ◌^◌, refl, ap, ◌∙◌, true, false, List, [], ◌∷◌, ◌++◌, Option,
  Result, ok, err, pass, Bytes, length, length-append, get_elem?, arith,
}
use pecl_database_mysql_xdev.Fields.{Zval, Library, Fault, Decoded}
use pecl_database_mysql_xdev.Fields.Types.{FieldMeta, field_to_zval}
use pecl_database_mysql_xdev.Wire.{
  HndStatus, hnd_again, undefined_behaviour, Packet, column_metadata, row, fetch_done_more_rsets,
  Ending, returned, no_meaning, Frame, plain, compressed, process_received_message, process_batch,
  receive_message,
}
use pecl_database_mysql_xdev.Wire.Notices.{Log}
use pecl_database_mysql_xdev.Wire.ResultSets.{
  SetState, Reader, Callbacks, created, decode, decode_field, add_decoded, add_field, on_row_field,
  read_fields, on_rset_row, stmt_execute_handlers,
}
use pecl_database_mysql_xdev.Wire.Batches.{receive_batch, ended}
use pecl_database_mysql_xdev.Wire.Delivery.{field_between}
use pecl_database_mysql_xdev.Wire.Row.{reader, rows_of, created-rows_of}
use pecl_database_mysql_xdev.Wire.Reading.{handlers, ended_set, with_column, more-reads}

module _ (lib : Library) (cb : Callbacks) where
  -- The first of several columns: its field is decoded, or the decoder has no meaning.
  first_field :
      (s : SetState) (c : FieldMeta) (l : List FieldMeta) (buf : Bytes)
      → s.meta ≡ c ∷ l
      → on_row_field lib buf 0 s ≡ add_field s 0 (rows_of s.rowset) (field_to_zval lib c buf)
  unfolding on_row_field
  first_field s c l buf e =
      ap (λ (o : Option (List (List Zval))). decode_field lib s 0 buf o)
        (ap (λ (m : List FieldMeta). created m s.rowset) e ∙ created-rows_of lib cb c l s.rowset)
      ∙ ap (λ (o : Option FieldMeta). add_decoded s 0 (rows_of s.rowset) (decode lib o buf))
          (ap (λ (m : List FieldMeta). get_elem? m 0) e)

  fails_or_goes_on :
      (s : SetState) (rows : List (List Zval)) (r : Result Fault Decoded) (n : ℕ) (buf : Bytes)
      → (1 == length s.meta) ≡ false
      → on_row_field lib buf 0 s ≡ add_field s 0 rows r
      → (read_fields lib (buf ∷ []) (suc (suc n)) 0 hnd_again s).1 ≡ undefined_behaviour
  unfolding read_fields
  fails_or_goes_on s rows (err fault) n buf between e =
      rw (e, read_fields) (ap (λ (q : SetState × HndStatus). q.1) e)
  fails_or_goes_on s rows (ok (status, z)) n buf between e =
      rw (e, read_fields)
        (rw (field_between lib cb s 0 rows status z [] refl between, read_fields) refl)

  -- A row of one field, where the state holds two columns or more.
  pub short_row :
      (s : SetState) (log : Log) (c : FieldMeta) (l : List FieldMeta) (buf : Bytes) (n : ℕ)
      → s.meta ≡ c ∷ l
      → 0 < length l
      → s.field_count ≡ suc (suc n)
      → (on_rset_row lib (buf ∷ []) (reader s log)).1 ≡ undefined_behaviour
  unfolding on_rset_row
  short_row s log c l buf n known several count =
      let begun = record s { has_more_results = true } in
      let size = ap (λ (m : List FieldMeta). length m) known in
      let between : (1 == length s.meta) ≡ false = ground arith in
      ap (λ (k : ℕ). (read_fields lib (buf ∷ []) k 0 hnd_again begun).1) count
      ∙ fails_or_goes_on begun (rows_of s.rowset) (field_to_zval lib c buf) n buf between
          (first_field begun c l buf known)

  stays_undefined :
      (ps : List Packet) (r : Reader × HndStatus)
      → r.1 ≡ undefined_behaviour
      → (process_batch (handlers lib cb) ps r).1 ≡ undefined_behaviour
  unfolding process_batch
  stays_undefined [] r e = e
  stays_undefined (p ∷ ps) r e = rw (e, process_batch) refl

  pub ended_undefined :
      (rest : List Frame) (r : Reader × HndStatus)
      → r.1 ≡ undefined_behaviour
      → (ended (handlers lib cb) rest r).0 ≡ no_meaning
  ended_undefined rest r e = rw e refl

  batch_past_end :
      (s : SetState) (log : Log) (c m : FieldMeta) (cs : List FieldMeta) (buf : Bytes)
      (ps : List Packet)
      → s.meta ≡ c ∷ cs
      → s.field_count ≡ length (c ∷ cs)
      → length (c ∷ cs) + 1 < 2 ^ 16
      → (process_batch
          (handlers lib cb)
          (fetch_done_more_rsets ∷ column_metadata m ∷ row (buf ∷ []) ∷ ps)
          (reader s log, hnd_again)).1
        ≡ undefined_behaviour
  unfolding process_batch process_received_message stmt_execute_handlers
  batch_past_end s log c m cs buf ps known count fits =
      let sum = length-append {0} cs (m ∷ []) in
      let several : 0 < length (cs ++ m ∷ []) = omega arith in
      let two : (s.field_count + 1) % 2 ^ 16 ≡ suc (suc (length cs)) = omega arith in
      stays_undefined ps
        (on_rset_row lib (buf ∷ []) (reader (with_column lib cb (ended_set lib cb true s) m) log))
        (short_row (with_column lib cb (ended_set lib cb true s) m) log c (cs ++ m ∷ []) buf
          (length cs) (ap (λ (l : List FieldMeta). l ++ m ∷ []) known) several two)

  -- Where a set of one column or more, but fewer than 2^16 - 1, has been read and the next set of a single column begins in
  -- the same compressed batch, the messages behind the end of the first set are processed too, and
  -- the row of the second set is read past its field: the call has no meaning. In frames of
  -- their own the call passes at the end of the first set and leaves the rest unread.
  pub receive_message-past_end :
      (s : SetState) (log : Log) (c m : FieldMeta) (cs : List FieldMeta) (buf : Bytes)
      (ps : List Packet) (rest : List Frame)
      → s.meta ≡ c ∷ cs
      → s.field_count ≡ length (c ∷ cs)
      → length (c ∷ cs) + 1 < 2 ^ 16
      → ((receive_message
            (handlers lib cb)
            (compressed (fetch_done_more_rsets ∷ column_metadata m ∷ row (buf ∷ []) ∷ ps) ∷ rest)
            (reader s log)).0
          ≡ no_meaning)
        × (receive_message (handlers lib cb) (plain fetch_done_more_rsets ∷ rest) (reader s log)
            ≡ (returned pass, reader (ended_set lib cb true s) log, rest))
  unfolding stmt_execute_handlers
  receive_message-past_end s log c m cs buf ps rest known count fits =
      let batch = fetch_done_more_rsets ∷ column_metadata m ∷ row (buf ∷ []) ∷ ps in
      (
        ap (λ (r : Ending × Reader × List Frame). r.0)
              (receive_batch (handlers lib cb) (reader s log) batch rest refl)
            ∙ ended_undefined rest (process_batch (handlers lib cb) batch (reader s log, hnd_again))
                (batch_past_end s log c m cs buf ps known count fits),
        more-reads lib cb rest s log,
      )
