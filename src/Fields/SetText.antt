-- ===== src/Fields/SetText.antt =====
-- SET fields of xmysqlnd/xmysqlnd_wireprotocol.cc against the encoding that
-- xmysqlnd/proto_def/mysqlx_resultset.proto describes: each item behind its length.
use pecl_database_mysql_xdev.Common.{
  ℕ, zero, suc, ◌+◌, ◌^◌, ◌≤◌, ◌<◌, ◌≡◌, refl, sym, ap, ◌∙◌, ltb, false, ◌⊎◌, inl, inr, Bool-cases,
  Option-cases, List, [], ◌∷◌, ◌++◌, append_assoc, append-nil, none, some, Result, ok, Status, pass,
  fail, Bytes, length, length-append, take, drop, length-drop, All, arith,
}
use pecl_database_mysql_xdev.Fields.{array, Decoded, Fault, Varint}
use pecl_database_mysql_xdev.Fields.Sets.{
  again, outside, add_item, read_items, is_empty_set, decoded_items, set_field,
}

take-length : (xs ys : Bytes) → take (length xs) (xs ++ ys) ≡ xs
take-length [] ys = refl
take-length (x ∷ xs) ys = ap (λ (l : Bytes). x ∷ l) (take-length xs ys)

drop-length : (xs ys : Bytes) → drop (length xs) (xs ++ ys) ≡ ys
drop-length [] ys = refl
drop-length (x ∷ xs) ys = drop-length xs ys

-- The items that come out: an empty one at the end is lost.
abbrev pub without_last_blank : List Bytes → List Bytes
without_last_blank [] = []
without_last_blank ([] ∷ []) = []
without_last_blank ((b ∷ item) ∷ []) = (b ∷ item) ∷ []
without_last_blank (item ∷ next ∷ items) = item ∷ without_last_blank (next ∷ items)

abbrev pub IsShort : Bytes → Type 0
IsShort item = length item < 2 ^ 64

add_item-append :
    (item rest : Bytes) (items : List Bytes)
    → 0 < length (item ++ rest)
    → add_item (length item) (item ++ rest) items ≡ again (items ++ item ∷ []) rest
add_item-append [] [] items h = absurd (omega arith)
add_item-append [] (c ∷ rest) items h = ground arith
add_item-append (b ∷ item) rest items h =
    let inside : ltb (length (b ∷ (item ++ rest))) (length (b ∷ item)) ≡ false =
      ground (arith, length-append item rest) in
    rw (inside, take-length item rest, drop-length item rest) refl

add_item-cases :
    (size : ℕ) (rest : Bytes) (items : List Bytes)
    → ((more : List Bytes) × (left : Bytes) × (add_item size rest items ≡ again more left)
        × (length left ≤ length rest))
      ⊎ (add_item size rest items ≡ outside)
add_item-cases size [] items = inl (items, [], refl, omega arith)
add_item-cases size (b ∷ rest) items = elim (Bool-cases (ltb (length (b ∷ rest)) size)) [
  | inl e ↦ inr (rw e refl)
  | inr e ↦ inl (
    items ++ take size (b ∷ rest) ∷ [],
    drop size (b ∷ rest),
    rw e refl,
    omega (arith, length-drop size (b ∷ rest)),
  )
]

module _ (varint : Varint) where
  abbrev pub encode_set : List Bytes → Bytes
  encode_set [] = []
  encode_set (item ∷ items) = varint.encode (length item) ++ (item ++ encode_set items)

  read-nil : varint.read [] ≡ none
  read-nil = elim (Option-cases (varint.read [])) [
    | inl e ↦ e
    | inr hit ↦ absurd (omega (arith, varint.read_shorter [] hit.0.0 hit.0.1 hit.1))
  ]

  encode-shorter :
      (n : ℕ) (rest : Bytes) → n < 2 ^ 64 → length rest < length (varint.encode n ++ rest)
  encode-shorter n rest h =
      varint.read_shorter (varint.encode n ++ rest) n rest (varint.read-encode n rest h)

  read_items-nil :
      (fuel : ℕ) (items : List Bytes)
      → 0 < fuel
      → read_items varint.read fuel [] items ≡ ok (pass, items)
  unfolding read_items
  read_items-nil zero items h = absurd (omega arith)
  read_items-nil (suc fuel) items h = rw (read-nil, read_items) refl

  read_items-step :
      (fuel size : ℕ) (buf rest left : Bytes) (items more : List Bytes)
      → varint.read buf ≡ some (size, rest)
      → add_item size rest items ≡ again more left
      → read_items varint.read (suc fuel) buf items ≡ read_items varint.read fuel left more
  unfolding read_items
  read_items-step fuel size buf rest left items more e k = rw (e, read_items) (rw k refl)

  ended :
      (before : List Bytes)
      → ◌≡◌ {A = Result Fault (Status × List Bytes)} (ok (pass, before)) (ok (pass, before ++ []))
  ended before = ap (λ (l : List Bytes). ok (pass, l)) (sym (append-nil before))

  read_items-encode :
      (fuel : ℕ) (items before : List Bytes)
      → All IsShort items
      → length (encode_set items) < fuel
      → read_items varint.read fuel (encode_set items) before
        ≡ ok (pass, before ++ without_last_blank items)
  read_items-encode zero items before h k = absurd (omega arith)
  read_items-encode (suc fuel) [] before h k =
      read_items-nil (suc fuel) before (omega arith) ∙ ended before
  read_items-encode (suc fuel) ([] ∷ []) before h k =
      let shorter = encode-shorter 0 [] h.0 in
      read_items-step fuel 0 (varint.encode 0 ++ []) [] [] before before
        (varint.read-encode 0 [] h.0) refl
      ∙ (read_items-nil fuel before (omega arith) ∙ ended before)
  read_items-encode (suc fuel) ((b ∷ item) ∷ []) before h k =
      let rest : Bytes = (b ∷ item) ++ [] in
      let shorter = encode-shorter (length (b ∷ item)) rest h.0 in
      read_items-step fuel (length (b ∷ item)) (varint.encode (length (b ∷ item)) ++ rest) rest []
        before (before ++ (b ∷ item) ∷ []) (varint.read-encode (length (b ∷ item)) rest h.0)
        (add_item-append (b ∷ item) [] before (omega arith))
      ∙ read_items-nil fuel (before ++ (b ∷ item) ∷ []) (omega arith)
  read_items-encode (suc fuel) (item ∷ next ∷ items) before h k =
      let others = encode_set (next ∷ items) in
      let shorter = encode-shorter (length item) (item ++ others) h.0 in
      let later = encode-shorter (length next) (next ++ encode_set items) h.1.0 in
      let sum = length-append {0} item others in
      read_items-step fuel (length item) (varint.encode (length item) ++ (item ++ others))
        (item ++ others) others before (before ++ item ∷ [])
        (varint.read-encode (length item) (item ++ others) h.0)
        (add_item-append item others before (omega arith))
      ∙ (read_items-encode fuel (next ∷ items) (before ++ item ∷ []) h.1 (omega arith)
          ∙ ap (λ (l : List Bytes). ok (pass, l))
              (append_assoc before (item ∷ []) (without_last_blank (next ∷ items))))

  -- A set, encoded as the protocol says and not as the one byte 1, is decoded to its items in order,
  -- but for an empty item at the end, which is lost: so a set of one empty string comes out empty.
  pub set_field-encode_set :
      (items : List Bytes)
      → All IsShort items
      → is_empty_set varint.read (encode_set items) ≡ false
      → set_field varint.read (encode_set items) ≡ ok (pass, array (without_last_blank items))
  unfolding set_field
  set_field-encode_set items h e = rw e (
      ap (λ (r : Result Fault (Status × List Bytes)). decoded_items varint.read r)
        (read_items-encode (length (encode_set items) + 1) items [] h (omega arith)))

  read_items_ends :
      (fuel : ℕ) (buf : Bytes) (items : List Bytes)
      → length buf < fuel
      → (r : Status × List Bytes) × (read_items varint.read fuel buf items ≡ ok r)
  unfolding read_items
  read_items_ends zero buf items h = absurd (omega arith)
  read_items_ends (suc fuel) buf items h = elim (Option-cases (varint.read buf)) [
    | inl e ↦ ((pass, items), rw (e, read_items) refl)
    | inr hit ↦ elim (add_item-cases hit.0.0 hit.0.1 items) [
      | inl next ↦
          let shorter = varint.read_shorter buf hit.0.0 hit.0.1 hit.1 in
          let rest = read_items_ends fuel next.1 next.0 (omega (arith, next.3)) in
          (
            rest.0,
            read_items-step fuel hit.0.0 buf hit.0.1 next.1 items next.0 hit.1 next.2 ∙ rest.1,
          )
      | inr wrong ↦ ((fail, items), rw (hit.1, read_items) (rw wrong refl))
    ]
  ]

  -- Every field of a set is decoded: the loop ends within the bytes of the field.
  set_field_ends : (buf : Bytes) → (r : Decoded) × (set_field varint.read buf ≡ ok r)
  unfolding set_field
  set_field_ends buf =
      let r = read_items_ends (length buf + 1) buf [] (omega arith) in
      elim (Bool-cases (is_empty_set varint.read buf)) [
        | inl e ↦ ((pass, array []), rw e refl)
        | inr e ↦ ((r.0.0, array r.0.1), rw (e, r.1) refl)
      ]
