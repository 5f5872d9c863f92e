-- ===== src/Fields/Times.antt =====
-- TIME, DATETIME and DATE fields of xmysqlnd/xmysqlnd_wireprotocol.cc against the encoding that
-- xmysqlnd/proto_def/mysqlx_resultset.proto describes: numbers, of which zeros at the end may be
-- left out.
use pecl_database_mysql_xdev.Common.{
  ℕ, zero, suc, ◌-◌, ◌^◌, ◌≤◌, ◌<◌, ◌≡◌, refl, sym, ap, ◌∙◌, inl, inr, Option-cases, List, [], ◌∷◌,
  ◌++◌, none, pass, Bytes, length, length-append, All, arith, ◌==◌, if◌then◌else◌,
}
use pecl_database_mysql_xdev.Fields.{
  string, Varint, Library, zeros, read_numbers, time_text, time_field, datetime_text,
  datetime_field, padded,
}

abbrev pub IsWord : ℕ → Type 0
IsWord n = n < 2 ^ 64

module _ (varint : Varint) where
  abbrev pub encode_numbers : List ℕ → Bytes
  encode_numbers [] = []
  encode_numbers (n ∷ ns) = varint.encode n ++ encode_numbers ns

  read-nil : varint.read [] ≡ none
  read-nil = elim (Option-cases (varint.read [])) [
    | inl e ↦ e
    | inr hit ↦ absurd (omega (arith, varint.read_shorter [] hit.0.0 hit.0.1 hit.1))
  ]

  read_numbers-encode_numbers :
      (count : ℕ) (ns : List ℕ)
      → All IsWord ns
      → length ns ≤ count
      → read_numbers varint.read count (encode_numbers ns) ≡ ns ++ zeros (count - length ns)
  unfolding read_numbers
  read_numbers-encode_numbers zero [] h k = refl
  read_numbers-encode_numbers zero (n ∷ ns) h k = absurd (omega arith)
  read_numbers-encode_numbers (suc count) [] h k =
      let all : suc count ≡ suc count - 0 = omega arith in
      rw (read-nil, read_numbers) (ap zeros all)
  read_numbers-encode_numbers (suc count) (n ∷ ns) h k =
      let rest : suc count - suc (length ns) ≡ count - length ns = omega arith in
      rw (varint.read-encode n (encode_numbers ns) h.0, read_numbers)
        (rw rest
          (ap (λ (l : List ℕ). n ∷ l) (read_numbers-encode_numbers count ns h.1 (omega arith))))

  length-encode : (n : ℕ) → IsWord n → 0 < length (varint.encode n)
  length-encode n h = omega (
    arith,
    varint.read_shorter (varint.encode n ++ []) n [] (varint.read-encode n [] h),
    length-append {0} (varint.encode n) [],
  )

-- The number at a position, 0 where it has been left out.
abbrev pub nth : ℕ → List ℕ → ℕ
nth i [] = 0
nth zero (n ∷ ns) = n
nth (suc i) (n ∷ ns) = nth i ns

-- A minus sign if the first number is not 0, then the hours, minutes and seconds in two digits
-- and the microseconds in eight.
abbrev pub spelled_time : List ℕ → Bytes
spelled_time ns =
    (if nth 0 ns == 0 then [] else b'-' ∷ [])
    ++ (padded 2 (nth 1 ns)
        ++ b':'
          ∷ (padded 2 (nth 2 ns) ++ b':' ∷ (padded 2 (nth 3 ns) ++ b'.' ∷ padded 8 (nth 4 ns))))

-- `YYYY-MM-DD hh:mm:ss`.
abbrev pub spelled_datetime : List ℕ → Bytes
spelled_datetime ns =
    (padded 4 (nth 0 ns) ++ b'-' ∷ (padded 2 (nth 1 ns) ++ b'-' ∷ padded 2 (nth 2 ns)))
    ++ b' ' ∷ (padded 2 (nth 3 ns) ++ b':' ∷ (padded 2 (nth 4 ns) ++ b':' ∷ padded 2 (nth 5 ns)))

module _ (lib : Library) where
  time_text-whole :
      (neg hours minutes seconds useconds : ℕ)
      → IsWord hours
      → IsWord minutes
      → IsWord seconds
      → IsWord useconds
      → time_text lib (neg ∷ hours ∷ minutes ∷ seconds ∷ useconds ∷ [])
        ≡ spelled_time (neg ∷ hours ∷ minutes ∷ seconds ∷ useconds ∷ [])
  time_text-whole neg hours minutes seconds useconds h m s u =
      rw
        (
          lib.unsigned-padded 2 hours h,
          lib.unsigned-padded 2 minutes m,
          lib.unsigned-padded 2 seconds s,
          lib.unsigned-padded 8 useconds u,
        )
        refl

  time_text-spelled :
      (ns : List ℕ)
      → All IsWord ns
      → 2 ≤ length ns
      → length ns ≤ 5
      → time_text lib (ns ++ zeros (5 - length ns)) ≡ spelled_time ns
  time_text-spelled [] v low high = absurd (omega arith)
  time_text-spelled (a ∷ []) v low high = absurd (omega arith)
  time_text-spelled (a ∷ b ∷ []) v low high =
      time_text-whole a b 0 0 0 v.1.0 (omega arith) (omega arith) (omega arith)
  time_text-spelled (a ∷ b ∷ c ∷ []) v low high =
      time_text-whole a b c 0 0 v.1.0 v.1.1.0 (omega arith) (omega arith)
  time_text-spelled (a ∷ b ∷ c ∷ d ∷ []) v low high =
      time_text-whole a b c d 0 v.1.0 v.1.1.0 v.1.1.1.0 (omega arith)
  time_text-spelled (a ∷ b ∷ c ∷ d ∷ e ∷ []) v low high =
      time_text-whole a b c d e v.1.0 v.1.1.0 v.1.1.1.0 v.1.1.1.1.0
  time_text-spelled (a ∷ b ∷ c ∷ d ∷ e ∷ f ∷ ns) v low high = absurd (omega arith)

  datetime_text-whole :
      (year month day hours minutes seconds useconds : ℕ)
      → All IsWord (year ∷ month ∷ day ∷ hours ∷ minutes ∷ seconds ∷ [])
      → datetime_text lib (year ∷ month ∷ day ∷ hours ∷ minutes ∷ seconds ∷ useconds ∷ [])
        ≡ spelled_datetime (year ∷ month ∷ day ∷ hours ∷ minutes ∷ seconds ∷ [])
  datetime_text-whole year month day hours minutes seconds useconds v =
      rw
        (
          lib.unsigned-padded 4 year v.0,
          lib.unsigned-padded 2 month v.1.0,
          lib.unsigned-padded 2 day v.1.1.0,
          lib.unsigned-padded 2 hours v.1.1.1.0,
          lib.unsigned-padded 2 minutes v.1.1.1.1.0,
          lib.unsigned-padded 2 seconds v.1.1.1.1.1.0,
        )
        refl

  datetime_text-spelled :
      (ns : List ℕ)
      → All IsWord ns
      → 2 ≤ length ns
      → length ns ≤ 7
      → datetime_text lib (ns ++ zeros (7 - length ns)) ≡ spelled_datetime ns
  datetime_text-spelled [] v low high = absurd (omega arith)
  datetime_text-spelled (a ∷ []) v low high = absurd (omega arith)
  datetime_text-spelled (a ∷ b ∷ []) v low high = datetime_text-whole a b 0 0 0 0 0 (omega arith)
  datetime_text-spelled (a ∷ b ∷ c ∷ []) v low high =
      datetime_text-whole a b c 0 0 0 0 (omega arith)
  datetime_text-spelled (a ∷ b ∷ c ∷ d ∷ []) v low high =
      datetime_text-whole a b c d 0 0 0 (omega arith)
  datetime_text-spelled (a ∷ b ∷ c ∷ d ∷ e ∷ []) v low high =
      datetime_text-whole a b c d e 0 0 (omega arith)
  datetime_text-spelled (a ∷ b ∷ c ∷ d ∷ e ∷ f ∷ []) v low high =
      datetime_text-whole a b c d e f 0 (omega arith)
  datetime_text-spelled (a ∷ b ∷ c ∷ d ∷ e ∷ f ∷ g ∷ []) v low high =
      datetime_text-whole a b c d e f g (omega arith)
  datetime_text-spelled (a ∷ b ∷ c ∷ d ∷ e ∷ f ∷ g ∷ i ∷ ns) v low high = absurd (omega arith)

  long_time :
      (buf : Bytes)
      → 2 ≤ length buf
      → time_field lib buf ≡ (pass, string (time_text lib (read_numbers lib.varint.read 5 buf)))
  unfolding time_field
  long_time [] h = absurd (omega arith)
  long_time (b ∷ []) h = absurd (omega arith)
  long_time (b ∷ c ∷ buf) h = refl

  long_datetime :
      (buf : Bytes)
      → 2 ≤ length buf
      → datetime_field lib buf
        ≡ (pass, string (datetime_text lib (read_numbers lib.varint.read 7 buf)))
  unfolding datetime_field
  long_datetime [] h = absurd (omega arith)
  long_datetime (b ∷ []) h = absurd (omega arith)
  long_datetime (b ∷ c ∷ buf) h = refl

  two_bytes :
      (ns : List ℕ) → All IsWord ns → 2 ≤ length ns → 2 ≤ length (encode_numbers lib.varint ns)
  two_bytes [] h k = absurd (omega arith)
  two_bytes (m ∷ []) h k = absurd (omega arith)
  two_bytes (m ∷ n ∷ ns) h k = omega (
    arith,
    length-encode lib.varint m h.0,
    length-encode lib.varint n h.1.0,
    length-append {0} (lib.varint.encode m) (encode_numbers lib.varint (n ∷ ns)),
    length-append {0} (lib.varint.encode n) (encode_numbers lib.varint ns),
  )

  datetime_field-encode_numbers :
      (ns : List ℕ)
      → All IsWord ns
      → 2 ≤ length ns
      → length ns ≤ 7
      → datetime_field lib (encode_numbers lib.varint ns)
        ≡ (pass, string (datetime_text lib (ns ++ zeros (7 - length ns))))
  datetime_field-encode_numbers ns h low high =
      long_datetime (encode_numbers lib.varint ns) (two_bytes ns h low)
      ∙ ap (λ (l : List ℕ). (pass, string (datetime_text lib l)))
          (read_numbers-encode_numbers lib.varint 7 ns h high)

  -- A TIME of two to five numbers, encoded as the protocol says, is decoded to its sign and its
  -- hours, minutes and seconds in at least two digits each, with the microseconds behind a dot in at
  -- least eight digits, where the protocol shows six. A DATETIME of two to seven numbers is decoded to
  -- its year in at least four digits and the others in at least two; its microseconds are left out.
  -- Numbers that are left out are 0.
  pub time_field-encode_numbers :
      (ns : List ℕ)
      → All IsWord ns
      → 2 ≤ length ns
      → (length ns ≤ 5
          → time_field lib (encode_numbers lib.varint ns) ≡ (pass, string (spelled_time ns)))
        × (length ns ≤ 7
            → datetime_field lib (encode_numbers lib.varint ns)
              ≡ (pass, string (spelled_datetime ns)))
  time_field-encode_numbers ns h low = (
    (λ high.
        long_time (encode_numbers lib.varint ns) (two_bytes ns h low)
        ∙ ap (λ (l : List ℕ). (pass, string (time_text lib l)))
            (read_numbers-encode_numbers lib.varint 5 ns h high)
        ∙ ap (λ (t : Bytes). (pass, string t)) (time_text-spelled ns h low high)),
    (λ high.
        datetime_field-encode_numbers ns h low high
        ∙ ap (λ (t : Bytes). (pass, string t)) (datetime_text-spelled ns h low high)),
  )

  -- Two DATETIMEs that differ in their microseconds only are decoded to the same text.
  datetime_loses_useconds :
      (year month day hours minutes seconds u v : ℕ)
      → All IsWord (year ∷ month ∷ day ∷ hours ∷ minutes ∷ seconds ∷ u ∷ v ∷ [])
      → datetime_field lib
          (encode_numbers lib.varint (year ∷ month ∷ day ∷ hours ∷ minutes ∷ seconds ∷ u ∷ []))
        ≡ datetime_field lib
            (encode_numbers lib.varint (year ∷ month ∷ day ∷ hours ∷ minutes ∷ seconds ∷ v ∷ []))
  datetime_loses_useconds year month day hours minutes seconds u v
        (a, (b, (c, (d, (e, (f, (g, (h, t)))))))) =
      datetime_field-encode_numbers (year ∷ month ∷ day ∷ hours ∷ minutes ∷ seconds ∷ u ∷ [])
        (a, (b, (c, (d, (e, (f, (g, tt))))))) (omega arith) (omega arith)
      ∙ sym (
          datetime_field-encode_numbers (year ∷ month ∷ day ∷ hours ∷ minutes ∷ seconds ∷ v ∷ [])
            (a, (b, (c, (d, (e, (f, (h, tt))))))) (omega arith) (omega arith))
