-- ===== src/Connect/Compression/Tests.antt =====
-- Runs of the choice of a compression algorithm.
use pecl_database_mysql_xdev.Common.{
  ◌≡◌, refl, Bool, true, false, [], ◌∷◌, none, some, ok, err, codes,
}
use pecl_database_mysql_xdev.Connect.Values.{Value, string, array, object, no_fields, field}
use pecl_database_mysql_xdev.Connect.Compression.{
  Algorithm, none_, lz4_message, zlib_deflate_stream, required, preferred, disabled,
  compressor_not_available, server_error, Reply, accepted, raises, run_setup, gather_capabilities,
  prepare_algorithms_to_negotiate,
}
use pecl_database_mysql_xdev.Connect.Compression.Choice.{Outcome, run_setup-Outcome}

-- A server that knows two algorithms and one of its own.
abbrev server : Value
server = array (
    field (codes "compression")
      (object (
        field (codes "algorithm")
          (array (
            field [] (string (codes "lz4_message")) (
              field [] (string (codes "own"))
                (field [] (string (codes "DEFLATE_STREAM")) no_fields))))
          no_fields))
      no_fields)

abbrev no_lz4 : Algorithm → Bool
no_lz4 lz4_message = false
no_lz4 a = true

abbrev all_accepted : Algorithm → Reply
all_accepted a = accepted

-- The server's answer is an error.
abbrev no_zlib : Algorithm → Reply
no_zlib zlib_deflate_stream = raises
no_zlib a = accepted

run_error : run_setup no_lz4 no_zlib preferred none server ≡ err server_error
unfolding run_setup
run_error = refl

run_preferred : run_setup no_lz4 all_accepted preferred none server ≡ ok zlib_deflate_stream
unfolding run_setup
run_preferred = refl

run_required :
    run_setup no_lz4 all_accepted required (some (codes "lz4" ∷ [])) server
    ≡ err compressor_not_available
unfolding run_setup
run_required = refl

run_setup-Outcome_example :
    (run_setup no_lz4 no_zlib disabled none server ≡ ok none_)
    × Outcome no_lz4 no_zlib false
        (gather_capabilities server)
        (prepare_algorithms_to_negotiate none)
        (run_setup no_lz4 no_zlib preferred none server)
    × Outcome no_lz4 no_zlib true
        (gather_capabilities server)
        (prepare_algorithms_to_negotiate none)
        (run_setup no_lz4 no_zlib required none server)
run_setup-Outcome_example = run_setup-Outcome no_lz4 no_zlib none server
