-- ===== src/Frames/Delivery.antt =====
-- What xmysqlnd/xmysqlnd_protocol_frame_codec.cc sends, it receives.
use pecl_database_mysql_xdev.Common.{
  ℕ, zero, suc, ◌+◌, ◌-◌, ◌/◌, ◌%◌, ◌^◌, ◌≤◌, ◌<◌, ◌≡◌, refl, sym, ap, subst, ◌∙◌, leb, ◌==◌, Bool,
  true, false, not, ◌&&◌, ◌||◌, if◌then◌else◌, List, [], ◌∷◌, ◌++◌, append_assoc, append-nil,
  Option, none, some, pass, Bytes, length, take, drop, take-append-drop, length-take, length-drop,
  length-append, arith,
}
use pecl_database_mysql_xdev.Frames.{
  load4, header, Sent, is_empty, room, after_sending, advanced, send_loop, send, received,
  receive_payload, receive,
}

load4-store4 :
    (n : ℕ)
    → n < 2 ^ 32
    → load4 (n % 256) (n / 256 % 256) (n / 65536 % 256) (n / 16777216 % 256) ≡ n
load4-store4 n h = omega arith

take-append : (xs ys : Bytes) → take (length xs) (xs ++ ys) ≡ xs
take-append [] ys = refl
take-append (x ∷ xs) ys = rw (take-append xs ys)

drop-append : (xs ys : Bytes) → drop (length xs) (xs ++ ys) ≡ ys
drop-append [] ys = refl
drop-append (x ∷ xs) ys = drop-append xs ys

-- One packet.
abbrev pub packet : ℕ → Bytes → Bytes
packet packet_type chunk = header packet_type (length chunk) ++ chunk

receive_payload-append :
    (packet_type n : ℕ) (chunk more : Bytes)
    → length chunk ≡ n
    → n + 1 < 2 ^ 32
    → receive_payload packet_type (n + 1) (chunk ++ more) ≡ received packet_type chunk more
receive_payload-append packet_type n chunk more e h =
    let count : (n + 1 + (2 ^ 32 - 1)) % 2 ^ 32 ≡ n = omega arith in
    let len = length-append {0} chunk more in
    let fits : leb n (length (chunk ++ more)) ≡ true = ground arith in
    rw (count, fits, ← e, take-append chunk more, drop-append chunk more) refl

receive-packet :
    (packet_type : ℕ) (chunk more : Bytes)
    → packet_type < 256
    → length chunk + 1 < 2 ^ 32
    → receive (packet packet_type chunk ++ more) ≡ received packet_type chunk more
unfolding receive
receive-packet packet_type chunk more t h =
    let type_eq : packet_type % 256 ≡ packet_type = omega arith in
    rw (load4-store4 (length chunk + 1) h, type_eq)
      (receive_payload-append packet_type (length chunk) chunk more refl h)

-- The packets of several chunks, one after the other.
abbrev pub packets : ℕ → List Bytes → Bytes
packets packet_type [] = []
packets packet_type (c ∷ cs) = packet packet_type c ++ packets packet_type cs

abbrev pub join : List Bytes → Bytes
join [] = []
join (c ∷ cs) = c ++ join cs

-- A packet for each chunk, in order, and nothing else.
abbrev pub Receives : ℕ → List Bytes → Bytes → Bytes → Type 0
Receives packet_type [] input more = input ≡ more
Receives packet_type (c ∷ cs) input more =
    (rest : Bytes) × (receive input ≡ received packet_type c rest)
    × Receives packet_type cs rest more

abbrev pub AreShort : ℕ → List Bytes → Type 0
AreShort m [] = Unit
AreShort m (c ∷ cs) = (length c < m) × AreShort m cs

packets-Receives :
    (packet_type m : ℕ) (cs : List Bytes) (more : Bytes)
    → packet_type < 256
    → m < 2 ^ 32
    → AreShort m cs
    → Receives packet_type cs (packets packet_type cs ++ more) more
packets-Receives packet_type m [] more t h a = refl
packets-Receives packet_type m (c ∷ cs) more t h (le, a) = (
  packets packet_type cs ++ more,
  ap receive (append_assoc (packet packet_type c) (packets packet_type cs) more)
      ∙ receive-packet packet_type c (packets packet_type cs ++ more) t (omega arith),
  packets-Receives packet_type m cs more t h a,
)

-- The packets of chunks that make up `left` have been added to the stream `before`, and `sent`
-- packets have become more by their number.
abbrev Sends : ℕ → ℕ → Bytes → Bytes → ℕ → Option Sent → Type 0
Sends packet_type m left before sent none = ⊥
Sends packet_type m left before sent (some s) =
    (cs : List Bytes) × (s.stream ≡ before ++ packets packet_type cs)
    × (join cs ≡ left)
    × AreShort m cs
    × (s.status ≡ pass)
    × (s.bytes_sent ≡ 0)
    × (s.stat_packets_sent ≡ sent + length cs)

module _ (written : Bytes → ℕ) (m packet_type count : ℕ) (lower : 2 ≤ m) (upper : m < 2 ^ 32) where
  room_eq : room written m packet_type count ≡ m - 1
  room_eq = omega arith

  short : (left : Bytes) → length (take (room written m packet_type count) left) < m
  short left =
      let e = length-take {0} (room written m packet_type count) left in omega (arith, room_eq)

  one-Sends :
      (left before chunk : Bytes) (address sent : ℕ)
      → 0 < address
      → chunk ++ [] ≡ left
      → length chunk < m
      → Sends packet_type m left before sent (
          some (
            after_sending written m packet_type count address
              (before ++ packet packet_type chunk)
              (sent + 1)))
  one-Sends left before chunk address sent pos e h =
      let open_ : (address == 0) ≡ false = ground arith in
      (
        chunk ∷ [],
        ap (λ (l : Bytes). before ++ l) (sym (append-nil (packet packet_type chunk))),
        e,
        (h, tt),
        rw open_ refl,
        refl,
        omega arith,
      )

  more-Sends :
      (left before chunk rest : Bytes) (sent : ℕ) (r : Option Sent)
      → chunk ++ rest ≡ left
      → length chunk < m
      → Sends packet_type m rest (before ++ packet packet_type chunk) (sent + 1) r
      → Sends packet_type m left before sent r
  more-Sends left before chunk rest sent none e h s = s
  more-Sends left before chunk rest sent (some x) e h
        (cs, stream, joined, shorts, status, bytes, stat) =
      (
        chunk ∷ cs,
        stream ∙ append_assoc before (packet packet_type chunk) (packets packet_type cs),
        ap (λ (l : Bytes). chunk ++ l) joined ∙ e,
        (h, shorts),
        status,
        bytes,
        stat ∙ (omega arith),
      )

  step-Sends :
      (left before chunk rest : Bytes) (next sent : ℕ) (again : Option Sent)
      → chunk ++ rest ≡ left
      → length chunk < m
      → 0 < next
      → (0 < length rest
          → Sends packet_type m rest (before ++ packet packet_type chunk) (sent + 1) again)
      → Sends packet_type m left before sent (
          if not (next == 0) && (not (is_empty rest) || length chunk == m)
          then again
          else some (
              after_sending written m packet_type count next
                (before ++ packet packet_type chunk)
                (sent + 1)))
  step-Sends left before chunk [] next sent again e h pos more =
      let full : (length chunk == m) ≡ false = ground arith in
      let done : (not (next == 0) && (length chunk == m)) ≡ false = ground arith in
      subst
        (λ (b : Bool). Sends packet_type m left before sent (
          if b
          then again
          else some (
              after_sending written m packet_type count next (before ++ packet packet_type chunk)
                (sent + 1))))
        (sym done) (one-Sends left before chunk next sent pos e h)
  step-Sends left before chunk (x ∷ xs) next sent again e h pos more =
      let open_ : (next == 0) ≡ false = ground arith in
      rw open_ (more-Sends left before chunk (x ∷ xs) sent again e h (more (omega arith)))

  send_loop-Sends :
      (fuel : ℕ) (left before : Bytes) (address sent : ℕ)
      → 0 < address
      → length left < fuel
      → Sends packet_type m left before sent
          (send_loop written m packet_type count fuel left address before sent)
  unfolding send_loop
  send_loop-Sends zero left before address sent pos h = absurd (omega arith)
  send_loop-Sends (suc fuel) left before address sent pos h =
      let n = room written m packet_type count in
      let chunk = take n left in
      let len = length-drop {0} n left in
      let next =
        advanced written m packet_type count address (header packet_type (length chunk)) chunk in
      step-Sends left before chunk (drop n left) next sent _ (take-append-drop n left) (short left)
        (omega arith)
        (λ some_left.
          send_loop-Sends fuel (drop n left) _ next (sent + 1) (omega arith)
            (omega (arith, room_eq)))

-- What a sending whose packets are known amounts to for the receiver.
Sends-Receives :
    (packet_type m : ℕ) (buffer more : Bytes) (r : Option Sent)
    → packet_type < 256
    → m < 2 ^ 32
    → Sends packet_type m buffer [] 1 r
    → (s : Sent) × (cs : List Bytes) × (r ≡ some s)
      × Receives packet_type cs (s.stream ++ more) more
      × (join cs ≡ buffer)
      × (s.status ≡ pass)
      × (s.bytes_sent ≡ 0)
      × (s.stat_packets_sent ≡ 1 + length cs)
Sends-Receives packet_type m buffer more none t h x = absurd x
Sends-Receives packet_type m buffer more (some s) t h
      (cs, stream, joined, shorts, status, bytes, stat) =
    (
      s,
      cs,
      refl,
      subst (λ (b : Bytes). Receives packet_type cs (b ++ more) more) (sym stream)
          (packets-Receives packet_type m cs more t h shorts),
      joined,
      status,
      bytes,
      stat,
    )

-- A message that is sent arrives: for a packet size from 2 on and below 2 ^ 32, `send` ends and
-- passes, whatever network_write returns, and from the bytes handed to it `receive` reads the payload in
-- packets of the same type, one after the other. But `*bytes_sent` stays 0, and the statistics
-- count one packet more than there are.
pub send-receive :
    (written : Bytes → ℕ) (m packet_type address : ℕ) (buffer more : Bytes)
    → 2 ≤ m
    → m < 2 ^ 32
    → 0 < address
    → packet_type < 256
    → (s : Sent) × (cs : List Bytes) × (send written m packet_type address buffer [] ≡ some s)
      × Receives packet_type cs (s.stream ++ more) more
      × (join cs ≡ buffer)
      × (s.status ≡ pass)
      × (s.bytes_sent ≡ 0)
      × (s.stat_packets_sent ≡ 1 + length cs)
unfolding send
send-receive written m packet_type address buffer more lower upper pos t =
    Sends-Receives packet_type m buffer more _ t upper (
      send_loop-Sends written m packet_type (length buffer) lower upper (suc (length buffer)) buffer
        [] address 1 pos (omega arith))
