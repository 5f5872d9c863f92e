-- ===== src/Wire/Tests.antt =====
-- Runs of the reader of result sets: a statement with two columns and two rows, a notice between.
use pecl_database_mysql_xdev.Common.{
  ◌≡◌, refl, true, false, List, [], ◌∷◌, ◌++◌, map, take, leb, length, arith, none, some, pass,
  codes,
}
use pecl_database_mysql_xdev.Fields.{Zval, string, null}
use pecl_database_mysql_xdev.Fields.Base128.{library}
use pecl_database_mysql_xdev.Fields.Types.{FieldMeta, bytes, decimal, field_to_zval}
use pecl_database_mysql_xdev.Session.{Session, CloseReason, ready}
use pecl_database_mysql_xdev.Wire.{returned, no_meaning}
use pecl_database_mysql_xdev.Wire.{
  hnd_pass, session_state_changed, rows_affected, Packet, notice, column_metadata, row, fetch_done,
  fetch_done_more_rsets, stmt_execute_ok, Frame, plain, compressed, process_received_message,
  process_batch, receive_message,
}
use pecl_database_mysql_xdev.Wire.Notices.{Log, no_log, inspect_notice_frame}
use pecl_database_mysql_xdev.Wire.ResultSets.{
  init_read, Reader, Callbacks, stmt_execute_handlers, on_rset_row, read_fields, on_row_field,
}
use pecl_database_mysql_xdev.Wire.Answers.{
  nil, cons, done, tail_notice, next_row, last_set, Answer, column, start_rows,
}
use pecl_database_mysql_xdev.Wire.Batches.{Runs, last, more, receive_message-compressed}
use pecl_database_mysql_xdev.Wire.Statements.{Statement, fwd_result, get_fwd_result}
use pecl_database_mysql_xdev.Wire.Prefetch.{Left}
use pecl_database_mysql_xdev.Wire.Fetching.{get_fwd_result-Answer, get_fwd_result-again}
use pecl_database_mysql_xdev.Wire.Overrun.{receive_message-past_end}
use pecl_database_mysql_xdev.Wire.ResultSets.{SetState}
use pecl_database_mysql_xdev.Wire.Row.{reader}
use pecl_database_mysql_xdev.Wire.Whole.{Answer-received}
use pecl_database_mysql_xdev.Wire.Reading.{ended_set, handlers, Reads}

abbrev silent : Callbacks
silent = record { on_warning = none; on_error = none; knows_keep_open = true }

abbrev session : Session
session = record {
  session_state = record { state = ready; close_reason = CloseReason.none };
  properly_supported = none;
  pooled = false;
  persistent = true;
  stream_open = true;
  sent = [];
}

abbrev quiet : Log
quiet = no_log session

abbrev of_type_bytes : FieldMeta
of_type_bytes = record { type = bytes; fractional_digits = 0; content_type = none }

abbrev of_type_decimal : FieldMeta
of_type_decimal = record { type = decimal; fractional_digits = 0; content_type = none }

abbrev columns : List FieldMeta
columns = of_type_bytes ∷ of_type_decimal ∷ []

abbrev rows : List (List Zval)
rows =
    (string (codes "Ada") ∷ string (codes "12.5") ∷ []) ∷ (null ∷ string (codes "-0.1") ∷ []) ∷ []

abbrev told : Log
told = record quiet { affected_items = 7 }

abbrev packets : List Packet
packets =
    column_metadata of_type_bytes
    ∷ column_metadata of_type_decimal
    ∷ row ((codes "Ada" ++ 0 ∷ []) ∷ (1 ∷ 0x12 ∷ 0x5c ∷ []) ∷ [])
    ∷ row ([] ∷ (1 ∷ 0x01 ∷ 0xd0 ∷ []) ∷ [])
    ∷ fetch_done
    ∷ notice (session_state_changed (rows_affected 7))
    ∷ stmt_execute_ok
    ∷ []

abbrev received : Reader
received = record {
  set = record (init_read 0) {
    field_count = 2;
    meta = columns;
    rowset = some rows;
    current_row = null ∷ string (codes "-0.1") ∷ [];
  };
  log = told;
  error_no = none;
}

answer_run :
    receive_message
      (handlers library silent)
      (map plain packets ++ plain fetch_done ∷ [])
      (reader (init_read 0) quiet)
    ≡ (returned pass, received, plain fetch_done ∷ [])
unfolding receive_message process_batch process_received_message stmt_execute_handlers on_rset_row
    read_fields on_row_field inspect_notice_frame field_to_zval
answer_run = refl

suspended_run :
    receive_message
      (handlers library silent)
      (plain (column_metadata of_type_bytes)
        ∷ plain (row ((codes "Ada" ++ 0 ∷ []) ∷ []))
        ∷ plain (row ([] ∷ []))
        ∷ plain fetch_done
        ∷ [])
      (reader (init_read 1) quiet)
    ≡ (
      returned pass,
      reader
          (record (init_read 1) {
            field_count = 1;
            has_more_results = true;
            has_more_rows_in_set = true;
            prefetch_counter = 0;
            meta = of_type_bytes ∷ [];
            rowset = some ((string (codes "Ada") ∷ []) ∷ []);
            current_row = string (codes "Ada") ∷ [];
          })
          quiet,
      plain (row ([] ∷ [])) ∷ plain fetch_done ∷ [],
    )
unfolding receive_message process_batch process_received_message stmt_execute_handlers on_rset_row
    read_fields on_row_field inspect_notice_frame field_to_zval
suspended_run = refl

packets-Runs :
    Runs (handlers library silent) (reader (init_read 0) quiet) packets (received, hnd_pass)
unfolding process_received_message stmt_execute_handlers on_rset_row read_fields on_row_field
    inspect_notice_frame field_to_zval
packets-Runs = more refl (more refl (more refl (more refl (more refl (more refl (last refl))))))

packets-Answer : Answer library silent [] quiet columns rows false told packets
unfolding inspect_notice_frame field_to_zval
packets-Answer = column (
    column (
      start_rows refl (
        next_row (cons refl (cons refl nil))
          (next_row (cons refl (cons refl nil)) (last_set (tail_notice refl done))))))

receive_message-compressed_example :
    receive_message
      (handlers library silent)
      (compressed packets ∷ plain fetch_done ∷ [])
      (reader (init_read 0) quiet)
    ≡ receive_message
        (handlers library silent)
        (map plain packets ++ plain fetch_done ∷ [])
        (reader (init_read 0) quiet)
unfolding stmt_execute_handlers
receive_message-compressed_example =
    receive_message-compressed (handlers library silent) (reader (init_read 0) quiet) packets
      (received, hnd_pass) (plain fetch_done ∷ []) refl packets-Runs

Answer-received_example :
    Reads library silent packets (plain fetch_done ∷ []) (init_read 0) quiet columns rows false told
Answer-received_example =
    Answer-received library silent columns rows false told packets (plain fetch_done ∷ []) session
      (omega arith) packets-Answer

abbrev one_column : SetState
one_column = record (init_read 0) { field_count = 1; meta = of_type_bytes ∷ [] }

receive_message-past_end_example :
    ((receive_message
        (handlers library silent)
        (compressed (
            fetch_done_more_rsets
            ∷ column_metadata of_type_bytes
            ∷ row ((codes "a" ++ 0 ∷ []) ∷ [])
            ∷ packets)
          ∷ [])
        (reader one_column quiet)).0
      ≡ no_meaning)
    × (receive_message
          (handlers library silent)
          (plain fetch_done_more_rsets ∷ [])
          (reader one_column quiet)
        ≡ (returned pass, reader (ended_set library silent true one_column) quiet, []))
receive_message-past_end_example =
    receive_message-past_end library silent one_column quiet of_type_bytes of_type_bytes []
      (codes "a" ++ 0 ∷ []) packets [] refl refl (omega arith)

abbrev new_statement : Statement
new_statement = record { partial_read_started = false; read_ctx = reader (init_read 0) quiet }

get_fwd_result-Answer_example :
    (t : SetState) × (log' : Log) × (left : List Frame) × (get_fwd_result library silent 1
        (map plain packets ++ [])
        new_statement
      ≡ fwd_result (returned pass) (reader t log') left)
    × Left library silent t columns (take 1 rows) (leb 1 (length rows))
get_fwd_result-Answer_example =
    get_fwd_result-Answer library silent columns rows false packets [] (init_read 0) quiet told 0
      (omega arith) (omega arith) packets-Answer

get_fwd_result-again_example :
    (get_fwd_result library silent 100
      (map plain (column_metadata of_type_decimal ∷ row ((codes "a" ++ 0 ∷ []) ∷ []) ∷ []) ++ [])
      (record { partial_read_started = true; read_ctx = reader one_column quiet })).status
    ≡ no_meaning
get_fwd_result-again_example =
    get_fwd_result-again library silent one_column quiet of_type_bytes of_type_decimal []
      (codes "a" ++ 0 ∷ []) [] 99 (record { known = refl; count = refl }) (omega arith)
