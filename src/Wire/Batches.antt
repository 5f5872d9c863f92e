-- ===== src/Wire/Batches.antt =====
-- A compressed batch against the same messages in frames of their own
-- (xmysqlnd_receive_message of xmysqlnd/xmysqlnd_wireprotocol.cc).
use pecl_database_mysql_xdev.Common.{◌≡◌, refl, sym, ap, ◌∙◌, Bool, true, List, [], ◌∷◌, ◌++◌, map}
use pecl_database_mysql_xdev.Wire.{
  HndStatus, hnd_again, Packet, Frame, plain, compressed, Handlers, process_received_message,
  process_batch, process_compressed, Received, after, receive_message,
}

module _ {S : Type 0} (h : Handlers S) where
  -- A run of messages in which every message but the last asks to go on; `r` is what it leaves.
  pub data Runs : S → List Packet → S × HndStatus → Type 0 where
    last :
        {s : S}
        → {p : Packet} → {r : S × HndStatus} → process_received_message h p s ≡ r
        → Runs s (p ∷ []) r
    more :
        {s t : S}
        → {p : Packet} → {ps : List Packet} → {r : S × HndStatus}
        → process_received_message h p s ≡ (t, hnd_again)
        → Runs t ps r
        → Runs s (p ∷ ps) r

  pub receive_plain :
      (p : Packet) (rest : List Frame) (s t : S)
      → process_received_message h p s ≡ (t, hnd_again)
      → receive_message h (plain p ∷ rest) s ≡ receive_message h rest t
  unfolding receive_message
  receive_plain p rest s t e = rw e refl

  abbrev pub ended : List Frame → S × HndStatus → Received h
  ended rest r = after h r.1 r.0 rest (receive_message h rest r.0)

  pub receive_last :
      (p : Packet) (rest : List Frame) (s : S) (r : S × HndStatus)
      → process_received_message h p s ≡ r
      → receive_message h (plain p ∷ rest) s ≡ ended rest r
  unfolding receive_message
  receive_last p rest s r e = rw e refl

  receive-plain :
      (s : S) (ps : List Packet) (r : S × HndStatus) (rest : List Frame)
      → Runs s ps r
      → receive_message h (map plain ps ++ rest) s ≡ ended rest r
  receive-plain s _ r rest (last {p = p} e) = receive_last p rest s r e
  receive-plain s _ r rest (more {t = t} {p = p} {ps = ps} e runs) =
      receive_plain p (map plain ps ++ rest) s t e ∙ receive-plain t ps r rest runs

  process_batch-Runs :
      (s : S) (ps : List Packet) (r : S × HndStatus)
      → Runs s ps r
      → process_batch h ps (s, hnd_again) ≡ r
  unfolding process_batch
  process_batch-Runs s _ r (last e) = e
  process_batch-Runs s _ r (more {t = t} {ps = ps} e runs) =
      ap (λ (q : S × HndStatus). process_batch h ps q) e ∙ process_batch-Runs t ps r runs

  pub receive_batch :
      (s : S) (ps : List Packet) (rest : List Frame)
      → h.on_compressed ≡ true
      → receive_message h (compressed ps ∷ rest) s ≡ ended rest (process_batch h ps (s, hnd_again))
  unfolding receive_message
  receive_batch s ps rest e = ap (λ (b : Bool). ended rest (process_compressed h b ps s)) e

  -- A compressed batch in which every message but the last asks to go on is received as the same
  -- messages in frames of their own are.
  pub receive_message-compressed :
      (s : S) (ps : List Packet) (r : S × HndStatus) (rest : List Frame)
      → h.on_compressed ≡ true
      → Runs s ps r
      → receive_message h (compressed ps ∷ rest) s ≡ receive_message h (map plain ps ++ rest) s
  receive_message-compressed s ps r rest e runs =
      receive_batch s ps rest e
      ∙ (ap (λ (q : S × HndStatus). ended rest q) (process_batch-Runs s ps r runs)
          ∙ sym (receive-plain s ps r rest runs))
