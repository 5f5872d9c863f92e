-- ===== src/Wire.antt =====
-- Messages from the server: process_received_message and xmysqlnd_receive_message of
-- xmysqlnd/xmysqlnd_wireprotocol.cc. A message is what protobuf makes of its payload. The network
-- gives a list of frames, a message or a compressed batch of them; where the list ends, `receive`
-- of the codec fails. Handlers act on a context of any type.
pub mod Notices
pub mod ResultSets
pub mod Batches
pub mod Answers
pub mod Delivery
pub mod Row
pub mod Reading
pub mod Whole
pub mod Requests
pub mod Passing
pub mod Login
pub mod Prefetch
pub mod Forward
pub mod Statements
pub mod Fetching
pub mod Overrun
pub mod Closing
pub mod RequestTests
pub mod ClosingTests
pub mod Tests
use pecl_database_mysql_xdev.Common.{
  ℕ, Bool, true, false, List, [], ◌∷◌, Option, none, some, Status, pass, fail, Bytes,
}
use pecl_database_mysql_xdev.Connect.Values.{Value}
use pecl_database_mysql_xdev.Session.{Code}
use pecl_database_mysql_xdev.Fields.Types.{FieldMeta}

-- `enum_hnd_func_status`, and two constructors of their own: for a handler that the code gives no
-- meaning, since it reads past the fields of a row, and for one that is left by an exception.
pub data HndStatus : Type 0 where
  hnd_pass hnd_fail hnd_pass_return_fail hnd_again hnd_again_async hnd_default_action : HndStatus
  undefined_behaviour : HndStatus
  throws : Code → HndStatus

-- How a call ends: it returns PASS or FAIL, an exception leaves it, or the code has no meaning.
pub data Ending : Type 0 where
  returned : Status → Ending
  thrown : Code → Ending
  no_meaning : Ending

-- Mysqlx::Notice::Warning; a field that is not set is `none`.
pub record Warning : Type 0 where
  pub level : Option ℕ
  pub code : Option ℕ
  pub msg : Option Bytes

-- Mysqlx::Notice::SessionStateChanged by its parameter, with the values that are read: those of the
-- counters, the generated document ids and the rest.
pub data StateChange : Type 0 where
  generated_insert_id rows_affected rows_found rows_matched : ℕ → StateChange
  generated_document_ids : List Bytes → StateChange
  trx_committed trx_rolledback : StateChange
  client_id_assigned : ℕ → StateChange
  unread : StateChange

-- A notice frame by its type; `ignored` has another scope, no payload or no known type.
pub data Notice : Type 0 where
  warning : Warning → Notice
  session_variable_changed : Notice
  session_state_changed : StateChange → Notice
  ignored : Notice

-- A message of the server by its type, with what is read of it: the code of an error, the array that
-- capabilities_to_zval makes of capabilities, the data of a challenge.
pub data Packet : Type 0 where
  ok_ auth_ok : Packet
  capabilities : Value → Packet
  auth_continue : Bytes → Packet
  error : ℕ → Packet
  notice : Notice → Packet
  column_metadata : FieldMeta → Packet
  row : List Bytes → Packet
  fetch_done fetch_suspended fetch_done_more_rsets stmt_execute_ok fetch_done_more_out_params :
      Packet
  invalid_type : Packet

pub data Frame : Type 0 where
  plain : Packet → Frame
  compressed : List Packet → Frame

abbrev pub Handler : Type 0 → Type 0
Handler S = Option (S → S × HndStatus)

-- `st_xmysqlnd_server_messages_handlers`: `none` is a null pointer. `on_COMPRESSED` is there or not.
pub record Handlers (S : Type 0) : Type 0 where
  pub on_ok : Handler S
  pub on_error : Option (ℕ → S → S × HndStatus)
  pub on_capabilities : Option (Value → S → S × HndStatus)
  pub on_auth_continue : Option (Bytes → S → S × HndStatus)
  pub on_auth_ok : Handler S
  pub on_notice : Option (Notice → S → S × HndStatus)
  pub on_column_meta : Option (FieldMeta → S → S × HndStatus)
  pub on_rset_row : Option (List Bytes → S → S × HndStatus)
  pub on_rset_fetch_done : Handler S
  pub on_rset_fetch_suspended : Handler S
  pub on_rset_fetch_done_more_rsets : Handler S
  pub on_stmt_execute_ok : Handler S
  pub on_rset_fetch_done_more_out_params : Handler S
  pub on_compressed : Bool
  pub on_unexpected : Handler S

-- A message without a handler is unexpected; without a handler for these it passes.
abbrev pub unexpected : {S : Type 0} → Handler S → S → S × HndStatus
unexpected none s = (s, hnd_pass)
unexpected (some f) s = f s

abbrev pub handle : {S : Type 0} → Handlers S → Handler S → S → S × HndStatus
handle h none s = unexpected h.on_unexpected s
handle h (some f) s = f s

abbrev pub handle_with :
    {S A : Type 0} → Handlers S → Option (A → S → S × HndStatus) → A → S → S × HndStatus
handle_with h none a s = unexpected h.on_unexpected s
handle_with h (some f) a s = f a s

module _ {S : Type 0} (h : Handlers S) where
  unfoldable pub process_received_message : Packet → S → S × HndStatus
  process_received_message ok_ s = handle h h.on_ok s
  process_received_message (error code) s = handle_with h h.on_error code s
  process_received_message (capabilities v) s = handle_with h h.on_capabilities v s
  process_received_message (auth_continue data_) s = handle_with h h.on_auth_continue data_ s
  process_received_message auth_ok s = handle h h.on_auth_ok s
  process_received_message (notice n) s = handle_with h h.on_notice n s
  process_received_message (column_metadata m) s = handle_with h h.on_column_meta m s
  process_received_message (row fields) s = handle_with h h.on_rset_row fields s
  process_received_message fetch_done s = handle h h.on_rset_fetch_done s
  process_received_message fetch_suspended s = handle h h.on_rset_fetch_suspended s
  process_received_message fetch_done_more_rsets s = handle h h.on_rset_fetch_done_more_rsets s
  process_received_message stmt_execute_ok s = handle h h.on_stmt_execute_ok s
  process_received_message fetch_done_more_out_params s =
      handle h h.on_rset_fetch_done_more_out_params s
  process_received_message invalid_type s = (s, hnd_fail)

  -- The messages of a batch: all of them are processed, and the status of the last one stays.
  unfoldable pub process_batch : List Packet → S × HndStatus → S × HndStatus
  unfolding process_received_message
  process_batch [] r = r
  process_batch (p ∷ ps) (s, undefined_behaviour) = (s, undefined_behaviour)
  process_batch (p ∷ ps) (s, throws c) = (s, throws c)
  process_batch (p ∷ ps) (s, other) = process_batch ps (process_received_message p s)

  abbrev pub process_compressed : Bool → List Packet → S → S × HndStatus
  unfolding process_batch
  process_compressed true ps s = process_batch ps (s, hnd_again)
  process_compressed false ps s = unexpected h.on_unexpected s

  -- A compressed message alone asks to go on; then its batch is processed.
  abbrev pub process_frame : Frame → S → S × HndStatus
  unfolding process_batch
  process_frame (plain p) s = process_received_message p s
  process_frame (compressed ps) s = process_compressed h.on_compressed ps s

  -- How a call ends with a status.
  abbrev pub status_of : HndStatus → Ending
  status_of hnd_pass = returned pass
  status_of hnd_again_async = returned pass
  status_of undefined_behaviour = no_meaning
  status_of (throws c) = thrown c
  status_of other = returned fail

  -- What a call leaves: its status, the context, and the frames that are still to come.
  abbrev pub Received : Type 0
  Received = Ending × S × List Frame

  abbrev pub after : HndStatus → S → List Frame → Received → Received
  after hnd_again s rest more = more
  after other s rest more = (status_of other, s, rest)

  -- The loop.
  unfoldable pub receive_message : List Frame → S → Received
  unfolding process_batch
  receive_message [] s = (returned fail, s, [])
  receive_message (f ∷ rest) s =
      let r = process_frame f s in let more = receive_message rest r.0 in after r.1 r.0 rest more
