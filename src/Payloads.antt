-- ===== src/Payloads.antt =====
-- What is compressed: Payload_composer and Message_extractor of xmysqlnd/xmysqlnd_compression.cc.
-- A read or a step of the iterator past the end of the bytes is an error of its own, past_end.
pub mod Extraction
pub mod Tests
use pecl_database_mysql_xdev.Common.{
  ℕ, zero, suc, ◌+◌, ◌-◌, ◌%◌, ◌^◌, leb, if◌then◌else◌, List, [], ◌∷◌, ◌++◌, Result, ok, err, Bytes,
  length, take, drop,
}
use pecl_database_mysql_xdev.Frames.{store4, load4}

pub data Err : Type 0 where
  past_end no_fuel : Err

-- `Message_data`.
pub record Message : Type 0 where
  pub packet_type : ℕ
  pub payload : Bytes

-- `Payload_composer::run`: the length, cast to 32 bits, the type, cast to a byte, the payload.
unfoldable pub compose : Message → Bytes
compose m = store4 ((1 + length m.payload) % 2 ^ 32) ++ m.packet_type % 256 ∷ m.payload

-- `extract_payload`, whose size is of the type size_t: the payload and what stands behind it.
abbrev pub extract_payload : ℕ → Bytes → Result Err (Bytes × Bytes)
extract_payload msg_length rest =
    let payload_size = (msg_length + (2 ^ 64 - 1)) % 2 ^ 64 in
    if leb payload_size (length rest)
    then ok (take payload_size rest, drop payload_size rest)
    else err past_end

abbrev pub push_message : Message → Result Err (List Message) → Result Err (List Message)
push_message m (ok ms) = ok (m ∷ ms)
push_message m (err e) = err e

-- The loop of `Message_extractor::run`.
unfoldable pub extract_all : ℕ → Bytes → Result Err (List Message)
extract_all fuel [] = ok []
extract_all zero (a ∷ rest) = err no_fuel
extract_all (suc fuel) (a ∷ b ∷ c ∷ d ∷ packet_type ∷ rest) =
    elim (extract_payload (load4 a b c d) rest) [
      | err e ↦ err e
      | ok r ↦
          push_message (record { packet_type = packet_type; payload = r.0 }) (extract_all fuel r.1)
    ]
extract_all (suc fuel) (a ∷ rest) = err past_end

unfoldable pub extract : Bytes → Result Err (List Message)
unfolding extract_all
extract bytes = extract_all (length bytes) bytes
