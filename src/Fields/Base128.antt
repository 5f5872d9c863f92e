-- ===== src/Fields/Base128.antt =====
-- A library for the runs: varints in base 128, as protobuf has them, for numbers of up to ten bytes,
-- and the rest as far as the runs need it.
use pecl_database_mysql_xdev.Common.{
  ℕ, zero, suc, ◌+◌, ◌-◌, ◌*◌, ◌/◌, ◌%◌, ◌^◌, ◌≤◌, ◌<◌, ◌≡◌, refl, ap, ◌∙◌, ltb, ◌==◌, false,
  if◌then◌else◌, inl, inr, Bool-cases, Option-cases, [], ◌∷◌, ◌++◌, Option, none, some, Bytes,
  length, pos, negsuc, arith,
}
use native.Mathlib.Nat.{pow-succ'}
use pecl_database_mysql_xdev.Fields.{Varint, Library, padded}

abbrev more : Option (ℕ × Bytes) → ℕ → Option (ℕ × Bytes)
more none b = none
more (some (n, rest)) b = some (b - 128 + 128 * n, rest)

unfoldable pub read128 : ℕ → Bytes → Option (ℕ × Bytes)
read128 zero bytes = none
read128 (suc fuel) [] = none
read128 (suc fuel) (b ∷ bytes) =
    let rest = more (read128 fuel bytes) b in if ltb b 128 then some (b, bytes) else rest

unfoldable pub encode128 : ℕ → ℕ → Bytes
encode128 zero n = []
encode128 (suc fuel) n =
    let rest = (128 + n % 128) ∷ encode128 fuel (n / 128) in if ltb n 128 then n ∷ [] else rest

more_bytes : (fuel n : ℕ) → 128 ≤ n → n < 128 ^ suc fuel → (n / 128 < 128 ^ fuel) × (0 < fuel)
more_bytes zero n large h = absurd (omega arith)
more_bytes (suc fuel) n large h = let power = pow-succ' 128 (suc fuel) in (omega arith, omega arith)

pub read128-encode128 :
    (fuel n : ℕ) (rest : Bytes)
    → 0 < fuel
    → n < 128 ^ fuel
    → read128 fuel (encode128 fuel n ++ rest) ≡ some (n, rest)
unfolding read128 encode128
read128-encode128 zero n rest z h = absurd (omega arith)
read128-encode128 (suc fuel) n rest z h = elim (Bool-cases (ltb n 128)) [
  | inl small ↦ rw small (rw small refl)
  | inr large ↦
      let further = more_bytes fuel n (ground arith) h in
      let not_small : ltb (128 + n % 128) 128 ≡ false = ground arith in
      let value : 128 + n % 128 - 128 + 128 * (n / 128) ≡ n = omega arith in
      rw large (
        rw not_small (
          ap (λ (o : Option (ℕ × Bytes)). more o (128 + n % 128))
            (read128-encode128 fuel (n / 128) rest further.1 further.0)
          ∙ ap (λ (k : ℕ). some (k, rest)) value))
]

pub read128_shorter :
    (fuel : ℕ) (bytes : Bytes) (n : ℕ) (rest : Bytes)
    → read128 fuel bytes ≡ some (n, rest)
    → length rest < length bytes
unfolding read128
read128_shorter zero bytes n rest e = cc
read128_shorter (suc fuel) [] n rest e = cc
read128_shorter (suc fuel) (b ∷ bytes) n rest e = elim (Bool-cases (ltb b 128)) [
  | inl small ↦ (ground arith)
  | inr large ↦ elim (Option-cases (read128 fuel bytes)) [
    | inl nothing ↦ (ground arith)
    | inr hit ↦ let shorter = read128_shorter fuel bytes hit.0.0 hit.0.1 hit.1 in (ground arith)
  ]
]

abbrev pub base128 : Varint
base128 = record {
  read = read128 10;
  encode = encode128 10;
  read-encode = λ n rest h. read128-encode128 10 n rest (omega arith) (omega arith);
  read_shorter = read128_shorter 10;
}

abbrev pub library : Library
library = record {
  varint = base128;
  zig_zag_decode = λ n. if n % 2 == 0 then pos (n / 2) else negsuc (n / 2);
  read_little_endian_64 = λ bytes. none;
  read_little_endian_32 = λ bytes. none;
  float_to_double = λ bits digits. bits;
  unsigned = padded;
  unsigned-padded = λ width n h. refl;
}
