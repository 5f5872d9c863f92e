-- ===== src/Payloads/Tests.antt =====
-- Runs of the composer and the extractor.
use pecl_database_mysql_xdev.Common.{◌≡◌, ◌≢◌, refl, ◌↔◌, [], ◌∷◌, ok, err, codes, All, arith}
use pecl_database_mysql_xdev.Payloads.{past_end, no_fuel, Message, compose, extract}
use pecl_database_mysql_xdev.Payloads.Extraction.{
  compose_all, Fits, IsByte, extract-compose_all, extract-ends,
}

abbrev hello : Message
hello = record { packet_type = 13; payload = codes "hi" }

abbrev nothing : Message
nothing = record { packet_type = 17; payload = [] }

compose_run : compose hello ≡ 3 ∷ 0 ∷ 0 ∷ 0 ∷ 13 ∷ 104 ∷ 105 ∷ []
unfolding compose
compose_run = refl

extract_run :
    extract (3 ∷ 0 ∷ 0 ∷ 0 ∷ 13 ∷ 104 ∷ 105 ∷ 1 ∷ 0 ∷ 0 ∷ 0 ∷ 17 ∷ []) ≡ ok (hello ∷ nothing ∷ [])
unfolding extract
extract_run = refl

-- A length of 0, and one that is longer than the bytes.
zero_run : extract (0 ∷ 0 ∷ 0 ∷ 0 ∷ 13 ∷ []) ≡ err past_end
unfolding extract
zero_run = refl

short_run : extract (9 ∷ 0 ∷ 0 ∷ 0 ∷ 13 ∷ 104 ∷ []) ≡ err past_end
unfolding extract
short_run = refl

composed-IsByte : All IsByte (compose_all (hello ∷ nothing ∷ []))
unfolding compose
composed-IsByte = (
  omega arith,
  (
    omega arith,
    (
      omega arith,
      (
        omega arith,
        (
          omega arith,
          (
            omega arith,
            (
              omega arith,
              (omega arith, (omega arith, (omega arith, (omega arith, (omega arith, tt))))),
            ),
          ),
        ),
      ),
    ),
  ),
)

extract-compose_all_example :
    (extract (compose_all (hello ∷ nothing ∷ [])) ≡ ok (hello ∷ nothing ∷ [])) ↔ (
      (compose_all (hello ∷ nothing ∷ []) ≡ compose_all (hello ∷ nothing ∷ []))
      × All Fits (hello ∷ nothing ∷ []))
unfolding compose
extract-compose_all_example =
    extract-compose_all (compose_all (hello ∷ nothing ∷ [])) (hello ∷ nothing ∷ []) composed-IsByte
      (omega arith)

extract-ends_example : extract (9 ∷ 0 ∷ 0 ∷ 0 ∷ 13 ∷ 104 ∷ []) ≢ err no_fuel
extract-ends_example = extract-ends (9 ∷ 0 ∷ 0 ∷ 0 ∷ 13 ∷ 104 ∷ [])
