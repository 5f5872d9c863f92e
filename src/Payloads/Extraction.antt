-- ===== src/Payloads/Extraction.antt =====
-- What Message_extractor reads of the bytes that Payload_composer writes, and of any bytes
-- (xmysqlnd/xmysqlnd_compression.cc).
use pecl_database_mysql_xdev.Common.{
  ℕ, zero, suc, ◌+◌, ◌-◌, ◌/◌, ◌%◌, ◌^◌, ◌<◌, ◌≤◌, ◌≡◌, ◌≢◌, refl, sym, ap, subst, ◌∙◌, ◌↔◌, Bool,
  true, false, leb, if◌then◌else◌, List, [], ◌∷◌, ◌++◌, Result, ok, err, Bytes, All, length,
  length-append, length-drop, take, drop, take-append-drop, length-take, take-append_of_length,
  drop-append_of_length, arith,
}
use pecl_database_mysql_xdev.Frames.{load4}
use pecl_database_mysql_xdev.Payloads.{
  Err, past_end, no_fuel, Message, compose, extract_payload, push_message, extract_all, extract,
}

-- The bytes of messages one behind the other.
abbrev pub compose_all : List Message → Bytes
compose_all [] = []
compose_all (m ∷ ms) = compose m ++ compose_all ms

-- A message whose type is a byte and whose length fits 32 bits.
abbrev pub Fits : Message → Type 0
Fits m = (m.packet_type < 256) × (length m.payload + 1 < 2 ^ 32)

abbrev pub IsByte : ℕ → Type 0
IsByte b = b < 256

-- One round reads one message.
extract_payload-append :
    (payload rest : Bytes)
    → length payload + 1 < 2 ^ 32
    → extract_payload (length payload + 1) (payload ++ rest) ≡ ok (payload, rest)
extract_payload-append payload rest h =
    let size : (length payload + 1 + (2 ^ 64 - 1)) % 2 ^ 64 ≡ length payload = omega arith in
    let sum = length-append {0} payload rest in
    let inside : leb (length payload) (length (payload ++ rest)) ≡ true = ground arith in
    rw (size, inside)
      (rw
        (
          take-append_of_length payload rest (length payload) refl,
          drop-append_of_length payload rest (length payload) refl,
        )
        refl)

abbrev taken : ℕ → ℕ → Result Err (Bytes × Bytes) → Result Err (List Message)
taken fuel packet_type (err e) = err e
taken fuel packet_type (ok (payload, rest)) =
    push_message (record { packet_type = packet_type; payload = payload }) (extract_all fuel rest)

-- A round of the loop.
extract_all-round :
    (fuel a b c d packet_type : ℕ) (rest : Bytes)
    → extract_all (suc fuel) (a ∷ b ∷ c ∷ d ∷ packet_type ∷ rest)
      ≡ taken fuel packet_type (extract_payload (load4 a b c d) rest)
unfolding extract_all
extract_all-round fuel a b c d packet_type rest = elim (extract_payload (load4 a b c d) rest) [
  | err e ↦ refl
  | ok r ↦ refl
]

extract_all-compose :
    (fuel : ℕ) (m : Message) (rest : Bytes)
    → Fits m
    → extract_all (suc fuel) (compose m ++ rest) ≡ push_message m (extract_all fuel rest)
unfolding compose
extract_all-compose fuel m rest h =
    let fits = h.1 in
    let n = (1 + length m.payload) % 2 ^ 32 in
    let size : load4 (n % 256) (n / 256 % 256) (n / 65536 % 256) (n / 16777216 % 256)
        ≡ length m.payload + 1 =
      omega arith in
    let small : m.packet_type < 256 = h.0 in
    let type_eq : m.packet_type % 256 ≡ m.packet_type = omega arith in
    extract_all-round fuel (n % 256) (n / 256 % 256) (n / 65536 % 256) (n / 16777216 % 256)
      (m.packet_type % 256) (m.payload ++ rest)
    ∙ (ap (λ (k : ℕ). taken fuel (m.packet_type % 256) (extract_payload k (m.payload ++ rest))) size
        ∙ (ap (λ (r : Result Err (Bytes × Bytes)). taken fuel (m.packet_type % 256) r)
              (extract_payload-append m.payload rest fits)
            ∙ ap
                (λ (t : ℕ).
                  push_message (record { packet_type = t; payload = m.payload })
                    (extract_all fuel rest))
                type_eq))

compose-length : (m : Message) → 5 ≤ length (compose m)
unfolding compose
compose-length m = omega arith

extract_all-compose_all :
    (fuel : ℕ) (ms : List Message)
    → All Fits ms
    → length (compose_all ms) ≤ fuel
    → extract_all fuel (compose_all ms) ≡ ok ms
extract_all-compose_all fuel [] h le = unfold extract_all in refl
extract_all-compose_all zero (m ∷ ms) h le =
    let sum = length-append {0} (compose m) (compose_all ms) in
    let long = compose-length m in absurd (omega arith)
extract_all-compose_all (suc fuel) (m ∷ ms) h le =
    let sum = length-append {0} (compose m) (compose_all ms) in
    let long = compose-length m in
    extract_all-compose fuel m (compose_all ms) h.0
    ∙ ap (λ (r : Result Err (List Message)). push_message m r)
        (extract_all-compose_all fuel ms h.1 (omega arith))

-- What was taken and what was left, where nothing was read past the end.
if_fits :
    (c : Bool) (taken_of left_of payload left : Bytes)
    → (let r : Result Err (Bytes × Bytes) = if c then ok (taken_of, left_of) else err past_end in r)
      ≡ ok (payload, left)
    → (c ≡ true) × (taken_of ≡ payload) × (left_of ≡ left)
if_fits true x y payload left e = (refl, cc, cc)
if_fits false x y payload left e = absurd cc

payload_read :
    (n : ℕ) (rest payload left : Bytes)
    → n < 2 ^ 32
    → length rest < 2 ^ 64 - 1
    → extract_payload n rest ≡ ok (payload, left)
    → (length payload + 1 ≡ n) × (payload ++ left ≡ rest)
payload_read n rest payload left small short e =
    let size = (n + (2 ^ 64 - 1)) % 2 ^ 64 in
    let r = if_fits (leb size (length rest)) (take size rest) (drop size rest) payload left e in
    let inside : size ≤ length rest = let h = r.0 in ground arith in
    let number = length-take {0} size rest in
    let same = ap (λ (l : Bytes). length l) r.1 in
    (
      omega arith,
      ap (λ (l : Bytes). l ++ left) (sym r.1)
          ∙ (ap (λ (l : Bytes). take size rest ++ l) (sym r.2) ∙ take-append-drop size rest),
    )

-- The bytes that a round reads are those of the message that it gives.
round-compose :
    (a b c d packet_type : ℕ) (rest payload left : Bytes)
    → All IsByte (a ∷ b ∷ c ∷ d ∷ packet_type ∷ [])
    → length rest < 2 ^ 64 - 1
    → extract_payload (load4 a b c d) rest ≡ ok (payload, left)
    → (a ∷ b ∷ c ∷ d ∷ packet_type ∷ rest
        ≡ compose (record { packet_type = packet_type; payload = payload }) ++ left)
      × Fits (record { packet_type = packet_type; payload = payload })
unfolding compose
round-compose a b c d packet_type rest payload left (ha, (hb, (hc, (hd, (ht, _))))) short e =
    let r = payload_read (load4 a b c d) rest payload left (omega arith) short e in
    let size = r.0 in
    let n = (1 + length payload) % 2 ^ 32 in
    let ea : n % 256 ≡ a = omega arith in
    let eb : n / 256 % 256 ≡ b = omega arith in
    let ec : n / 65536 % 256 ≡ c = omega arith in
    let ed : n / 16777216 % 256 ≡ d = omega arith in
    let et : packet_type % 256 ≡ packet_type = omega arith in
    let er = r.1 in (cc, (ht, omega arith))

push-ok :
    (m : Message) (r : Result Err (List Message)) (ms : List Message)
    → push_message m r ≡ ok ms
    → (later : List Message) × (r ≡ ok later) × (m ∷ later ≡ ms)
push-ok m (ok later) ms e = (later, refl, cc)
push-ok m (err fault) ms e = absurd cc

All-right : (xs ys : Bytes) → All IsByte (xs ++ ys) → All IsByte ys
All-right [] ys h = h
All-right (x ∷ xs) ys h = All-right xs ys h.1

-- What is read within a number of rounds is what the bytes spell.
abbrev Spells : ℕ → Type 0
Spells fuel =
    (bytes : Bytes) (ms : List Message)
    → All IsByte bytes
    → length bytes < 2 ^ 64
    → extract_all fuel bytes ≡ ok ms
    → (bytes ≡ compose_all ms) × All Fits ms

-- A round that gives a message, before rounds that do.
taken-ok :
    (fuel a b c d packet_type : ℕ) (rest : Bytes) (ms : List Message)
    (r : Result Err (Bytes × Bytes))
    → Spells fuel
    → All IsByte (a ∷ b ∷ c ∷ d ∷ packet_type ∷ rest)
    → length rest < 2 ^ 64 - 1
    → extract_payload (load4 a b c d) rest ≡ r
    → taken fuel packet_type r ≡ ok ms
    → (a ∷ b ∷ c ∷ d ∷ packet_type ∷ rest ≡ compose_all ms) × All Fits ms
taken-ok fuel a b c d packet_type rest ms (err fault) later bytes short e t = absurd cc
taken-ok fuel a b c d packet_type rest ms (ok (payload, left)) later
      (ha, (hb, (hc, (hd, (ht, hr))))) short e t =
    let m : Message = record { packet_type = packet_type; payload = payload } in
    let round =
      round-compose a b c d packet_type rest payload left (ha, (hb, (hc, (hd, (ht, tt))))) short
        e in
    let read = payload_read (load4 a b c d) rest payload left (omega arith) short e in
    let pushed = push-ok m (extract_all fuel left) ms t in
    let sum = length-append {0} payload left in
    let size = ap (λ (l : Bytes). length l) read.1 in
    let left_bytes = All-right payload left (subst (λ (l : Bytes). All IsByte l) (sym read.1) hr) in
    let behind = later left pushed.0 left_bytes (omega arith) pushed.1 in
    (
      round.0
          ∙ (ap (λ (l : Bytes). compose m ++ l) behind.0
              ∙ ap (λ (l : List Message). compose_all l) pushed.2),
      subst (λ (l : List Message). All Fits l) pushed.2 (round.1, behind.1),
    )

extract_all-ok : (fuel : ℕ) → Spells fuel
unfolding extract_all
extract_all-ok fuel [] ms h short e =
    let none_read : [] ≡ ms = cc in
    (
      ap (λ (l : List Message). compose_all l) none_read,
      subst (λ (l : List Message). All Fits l) none_read tt,
    )
extract_all-ok zero (a ∷ bytes) ms h short e = absurd cc
extract_all-ok (suc fuel) (a ∷ []) ms h short e = absurd cc
extract_all-ok (suc fuel) (a ∷ b ∷ []) ms h short e = absurd cc
extract_all-ok (suc fuel) (a ∷ b ∷ c ∷ []) ms h short e = absurd cc
extract_all-ok (suc fuel) (a ∷ b ∷ c ∷ d ∷ []) ms h short e = absurd cc
extract_all-ok (suc fuel) (a ∷ b ∷ c ∷ d ∷ packet_type ∷ rest) ms h short e =
    taken-ok fuel a b c d packet_type rest ms (extract_payload (load4 a b c d) rest)
      (extract_all-ok fuel) h (omega arith) refl
      (sym (extract_all-round fuel a b c d packet_type rest) ∙ e)

push-err :
    (m : Message) (r : Result Err (List Message)) (fault : Err)
    → push_message m r ≡ err fault
    → r ≡ err fault
push-err m (ok later) fault e = absurd cc
push-err m (err f) fault e = e

if_faults :
    (c : Bool) (taken_of left_of : Bytes) (fault : Err)
    → (let r : Result Err (Bytes × Bytes) = if c then ok (taken_of, left_of) else err past_end in r)
      ≡ err fault
    → fault ≡ past_end
if_faults true x y fault e = absurd cc
if_faults false x y fault e = cc

taken-ends :
    (fuel n packet_type : ℕ) (rest : Bytes) (r : Result Err (Bytes × Bytes))
    → ((left : Bytes) → length left ≤ fuel → extract_all fuel left ≢ err no_fuel)
    → length rest ≤ fuel
    → extract_payload n rest ≡ r
    → taken fuel packet_type r ≢ err no_fuel
taken-ends fuel n packet_type rest (err fault) later le e t =
    let size = (n + (2 ^ 64 - 1)) % 2 ^ 64 in
    let is_past = if_faults (leb size (length rest)) (take size rest) (drop size rest) fault e in cc
taken-ends fuel n packet_type rest (ok (payload, left)) later le e t =
    let size = (n + (2 ^ 64 - 1)) % 2 ^ 64 in
    let r = if_fits (leb size (length rest)) (take size rest) (drop size rest) payload left e in
    let number = length-drop {0} size rest in
    let same = ap (λ (l : Bytes). length l) r.2 in
    later left (omega arith) (
      push-err (record { packet_type = packet_type; payload = payload }) (extract_all fuel left)
        no_fuel t)

extract_all-ends :
    (fuel : ℕ) (bytes : Bytes) → length bytes ≤ fuel → extract_all fuel bytes ≢ err no_fuel
unfolding extract_all
extract_all-ends fuel [] le e = cc
extract_all-ends zero (a ∷ bytes) le e = absurd (omega arith)
extract_all-ends (suc fuel) (a ∷ []) le e = cc
extract_all-ends (suc fuel) (a ∷ b ∷ []) le e = cc
extract_all-ends (suc fuel) (a ∷ b ∷ c ∷ []) le e = cc
extract_all-ends (suc fuel) (a ∷ b ∷ c ∷ d ∷ []) le e = cc
extract_all-ends (suc fuel) (a ∷ b ∷ c ∷ d ∷ packet_type ∷ rest) le e =
    taken-ends fuel (load4 a b c d) packet_type rest (extract_payload (load4 a b c d) rest)
      (λ left. extract_all-ends fuel left) (omega arith) refl
      (sym (extract_all-round fuel a b c d packet_type rest) ∙ e)

-- The extractor ends within a round for each byte: it gives messages or reads past the end.
pub extract-ends : (bytes : Bytes) → extract bytes ≢ err no_fuel
unfolding extract
extract-ends bytes = extract_all-ends (length bytes) bytes (omega arith)

-- Of bytes that fit an address space the extractor reads the messages `ms` exactly where the bytes
-- are those that the composer writes of these messages, one behind the other, each with a type
-- of one byte and a length of 32 bits.
pub extract-compose_all :
    (bytes : Bytes) (ms : List Message)
    → All IsByte bytes
    → length bytes < 2 ^ 64
    → (extract bytes ≡ ok ms) ↔ ((bytes ≡ compose_all ms) × All Fits ms)
unfolding extract
extract-compose_all bytes ms h short = (
  (λ e. extract_all-ok (length bytes) bytes ms h short e),
  (λ r.
      ap (λ (l : Bytes). extract_all (length l) l) r.0
      ∙ extract_all-compose_all (length (compose_all ms)) ms r.1 (omega arith)),
)
