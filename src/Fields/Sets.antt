-- ===== src/Fields/Sets.antt =====
-- SET fields: xmysqlnd_row_set_field_to_zval of xmysqlnd/xmysqlnd_wireprotocol.cc.
use pecl_database_mysql_xdev.Common.{
  ℕ, zero, suc, ◌+◌, ltb, ◌==◌, Bool, false, if◌then◌else◌, List, [], ◌∷◌, ◌++◌, Option, none, some,
  Result, ok, err, Status, pass, fail, Bytes, length, take, drop,
}
use pecl_database_mysql_xdev.Fields.{array, Decoded, Fault, out_of_fuel}

-- Whether the loop goes on after a length has been read, and with what: at the end of the buffer
-- GetDirectBufferPointer gives none, and then nothing is added.
pub data Next : Type 0 where
  again : List Bytes → Bytes → Next
  outside : Next

abbrev pub add_item : ℕ → Bytes → List Bytes → Next
add_item size [] items = again items []
add_item size (b ∷ rest) items =
    if ltb (length (b ∷ rest)) size
    then outside
    else again (items ++ take size (b ∷ rest) ∷ []) (drop size (b ∷ rest))

module _ (read : Bytes → Option (ℕ × Bytes)) where
  -- The loop.
  unfoldable pub read_items : ℕ → Bytes → List Bytes → Result Fault (Status × List Bytes)
  read_items zero buf items = err out_of_fuel
  read_items (suc fuel) buf items = elim (read buf) [
    | none ↦ ok (pass, items)
    | some (size, rest) ↦ elim (add_item size rest items) [
      | again more left ↦ read_items fuel left more
      | outside ↦ ok (fail, items)
    ]
  ]

  abbrev pub is_empty_set : Bytes → Bool
  is_empty_set (b ∷ []) = b == 1
  is_empty_set buf = false

  abbrev pub decoded_items : Result Fault (Status × List Bytes) → Result Fault Decoded
  decoded_items (err e) = err e
  decoded_items (ok (status, items)) = ok (status, array items)

  unfoldable pub set_field : Bytes → Result Fault Decoded
  unfolding read_items
  set_field buf =
      let items = decoded_items (read_items (length buf + 1) buf []) in
      if is_empty_set buf then ok (pass, array []) else items
