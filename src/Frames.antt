-- ===== src/Frames.antt =====
-- The frame codec, xmysqlnd/xmysqlnd_protocol_frame_codec.cc: send and receive of one message.
-- The stream is the list of the bytes handed to network_write, or of those that can be read. What
-- network_write returns is the argument `written`. `send` adds it to the pointer `bytes_sent`,
-- whose address is kept for that reason, and not to the number behind it.
pub mod Delivery
pub mod Tests
use pecl_database_mysql_xdev.Common.{
  ℕ, zero, suc, ◌+◌, ◌-◌, ◌*◌, ◌/◌, ◌%◌, ◌^◌, ltb, leb, ◌==◌, Bool, true, false, not, ◌&&◌, ◌||◌,
  if◌then◌else◌, List, [], ◌∷◌, ◌++◌, Option, none, some, Status, pass, fail, Bytes, length, take,
  drop,
}

-- `int4store` and `uint4korr`, the lowest byte first.
abbrev pub store4 : ℕ → Bytes
store4 n = n % 256 ∷ n / 256 % 256 ∷ n / 65536 % 256 ∷ n / 16777216 % 256 ∷ []

abbrev pub load4 : ℕ → ℕ → ℕ → ℕ → ℕ
load4 a b c d = a + 256 * b + 65536 * c + 16777216 * d

-- The header: the length of the payload, in which the type counts, and the type.
abbrev pub header : ℕ → ℕ → Bytes
header packet_type to_be_sent = store4 (to_be_sent + 1) ++ packet_type % 256 ∷ []

-- What `send` leaves: its status, the stream, `*bytes_sent`, and the two statistics that count
-- bytes and packets.
pub record Sent : Type 0 where
  pub status : Status
  pub stream : Bytes
  pub bytes_sent : ℕ
  pub stat_bytes_sent : ℕ
  pub stat_packets_sent : ℕ

abbrev pub is_empty : Bytes → Bool
is_empty [] = true
is_empty (c ∷ cs) = false

module _ (written : Bytes → ℕ) (max_packet_size packet_type count : ℕ) where
  -- `max_packet_size - 1`, of the type size_t.
  abbrev pub room : ℕ
  room = (max_packet_size + (2 ^ 64 - 1)) % 2 ^ 64

  -- What stands behind the loop; `address` is the pointer `bytes_sent`.
  abbrev pub after_sending : ℕ → Bytes → ℕ → Sent
  after_sending address stream packets_sent = record {
    status = if address == 0 then fail else pass;
    stream = stream;
    bytes_sent = 0;
    stat_bytes_sent = count + packets_sent * 5;
    stat_packets_sent = packets_sent;
  }

  abbrev pub advanced : ℕ → Bytes → Bytes → ℕ
  advanced address head chunk =
      address + written head + (if is_empty chunk then 0 else written chunk)

  -- The loop `do ... while`, with the bytes that are left.
  unfoldable pub send_loop : ℕ → Bytes → ℕ → Bytes → ℕ → Option Sent
  send_loop zero left address stream packets_sent = none
  send_loop (suc fuel) left address stream packets_sent =
      let chunk = take room left in
      let rest = drop room left in
      let head = header packet_type (length chunk) in
      let next = advanced address head chunk in
      let out = stream ++ (head ++ chunk) in
      let again = send_loop fuel rest next out (packets_sent + 1) in
      if not (next == 0) && (not (is_empty rest) || length chunk == max_packet_size)
      then again
      else some (after_sending next out (packets_sent + 1))

-- `send`, where the stream is valid, of a buffer to the stream; `none` stands for a loop that has
-- not ended after a packet for each byte.
unfoldable pub send : (Bytes → ℕ) → ℕ → ℕ → ℕ → Bytes → Bytes → Option Sent
unfolding send_loop
send written max_packet_size packet_type address buffer stream =
    send_loop written max_packet_size packet_type (length buffer) (suc (length buffer)) buffer
      address stream 1

-- What `receive` leaves: the type and the payload, and the bytes that are still to be read.
pub data Received : Type 0 where
  received : ℕ → Bytes → Bytes → Received
  failed : Received

-- The payload, whose length is a number of 32 bits less one.
abbrev pub receive_payload : ℕ → ℕ → Bytes → Received
receive_payload packet_type payload_length input =
    let count = (payload_length + (2 ^ 32 - 1)) % 2 ^ 32 in
    if leb count (length input)
    then received packet_type (take count input) (drop count input)
    else failed

unfoldable pub receive : Bytes → Received
receive (a ∷ b ∷ c ∷ d ∷ packet_type ∷ input) = receive_payload packet_type (load4 a b c d) input
receive input = failed
