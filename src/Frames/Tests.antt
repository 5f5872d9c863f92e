-- ===== src/Frames/Tests.antt =====
-- Runs of the frame codec.
use pecl_database_mysql_xdev.Common.{
  ◌+◌, arith, ◌≡◌, refl, List, [], ◌∷◌, ◌++◌, some, pass, Bytes, length,
}
use pecl_database_mysql_xdev.Frames.{Sent, send, received, receive}
use pecl_database_mysql_xdev.Frames.Delivery.{Receives, join, send-receive}

run_send :
    send length 3 7 1000 (1 ∷ 2 ∷ 3 ∷ []) []
    ≡ some (record {
      status = pass;
      stream = 3 ∷ 0 ∷ 0 ∷ 0 ∷ 7 ∷ 1 ∷ 2 ∷ 2 ∷ 0 ∷ 0 ∷ 0 ∷ 7 ∷ 3 ∷ [];
      bytes_sent = 0;
      stat_bytes_sent = 18;
      stat_packets_sent = 3;
    })
unfolding send
run_send = refl

run_receive : receive (3 ∷ 0 ∷ 0 ∷ 0 ∷ 7 ∷ 1 ∷ 2 ∷ 9 ∷ []) ≡ received 7 (1 ∷ 2 ∷ []) (9 ∷ [])
unfolding receive
run_receive = refl

send-receive_example :
    (s : Sent) × (cs : List Bytes) × (send length 3 7 1000 (1 ∷ 2 ∷ 3 ∷ []) [] ≡ some s)
    × Receives 7 cs (s.stream ++ (9 ∷ [])) (9 ∷ [])
    × (join cs ≡ 1 ∷ 2 ∷ 3 ∷ [])
    × (s.status ≡ pass)
    × (s.bytes_sent ≡ 0)
    × (s.stat_packets_sent ≡ 1 + length cs)
send-receive_example =
    send-receive length 3 7 1000 (1 ∷ 2 ∷ 3 ∷ []) (9 ∷ []) (omega arith) (omega arith) (omega arith)
      (omega arith)
