-- ===== src/Connect/Compression.antt =====
-- The choice of a compression algorithm, xmysqlnd/xmysqlnd_compression_setup.cc. Whether a
-- compressor is built in is the argument `available`; the server's answer to the request to set
-- the capability is the argument `answer`.
pub mod Choice
pub mod Tests
use pecl_database_mysql_xdev.Common.{
  ℕ, ◌==◌, Bool, true, false, not, ◌&&◌, ◌||◌, if◌then◌else◌, List, [], ◌∷◌, ◌++◌, Option, none,
  some, Result, ok, err, Bytes, codes, iequals, any,
}
use pecl_database_mysql_xdev.Connect.Values.{
  Value, undef, string, array, object, values, find, is_array, is_object,
}

pub data Algorithm : Type 0 where
  none_ zstd_stream lz4_message zlib_deflate_stream : Algorithm

pub data Policy : Type 0 where
  required preferred disabled : Policy

pub data Code : Type 0 where
  compression_not_supported compressor_not_available compression_negotiation_failure : Code
  server_error : Code

-- What becomes of the request to set the capability: the server accepts it, the request cannot be
-- sent or its answer cannot be read, or the server answers with an error.
pub data Reply : Type 0 where
  accepted unanswered raises : Reply

abbrev pub index : Algorithm → ℕ
index none_ = 0
index zstd_stream = 1
index lz4_message = 2
index zlib_deflate_stream = 3

-- The map `algorithm_mapping`, which compares names by `util::iless`.
abbrev algorithm_mapping : List (Bytes × Algorithm)
algorithm_mapping =
    (codes "zstd_stream", zstd_stream)
    ∷ (codes "lz4_message", lz4_message)
    ∷ (codes "deflate_stream", zlib_deflate_stream)
    ∷ (codes "zlib_stream", zlib_deflate_stream)
    ∷ (codes "zstd", zstd_stream)
    ∷ (codes "lz4", lz4_message)
    ∷ (codes "zlib", zlib_deflate_stream)
    ∷ (codes "deflate", zlib_deflate_stream)
    ∷ []

unfoldable pub find_algorithm : Bytes → List (Bytes × Algorithm) → Algorithm
unfolding iequals
find_algorithm name [] = none_
find_algorithm name ((n, a) ∷ rest) = if iequals n name then a else find_algorithm name rest

unfoldable pub to_algorithm : Bytes → Algorithm
unfolding find_algorithm
to_algorithm name = find_algorithm name algorithm_mapping

-- `if (algorithm != Algorithm::none) push_back`.
abbrev pub push_algorithm : Algorithm → List Algorithm → List Algorithm
push_algorithm none_ bs = bs
push_algorithm a bs = a ∷ bs

unfoldable pub to_algorithms : List Bytes → List Algorithm
unfolding to_algorithm
to_algorithms [] = []
to_algorithms (name ∷ names) = push_algorithm (to_algorithm name) (to_algorithms names)

-- `add_supported_algorithm` for each value.
unfoldable pub supported_algorithms : List Value → List Algorithm
unfolding to_algorithm
supported_algorithms [] = []
supported_algorithms (string name ∷ vs) =
    push_algorithm (to_algorithm name) (supported_algorithms vs)
supported_algorithms (v ∷ vs) = supported_algorithms vs

-- `Gather_capabilities::add_supported_algorithms`: the list that is filled; the call returns
-- whether it is not empty.
unfoldable pub add_supported_algorithms : Value → List Algorithm
unfolding supported_algorithms
add_supported_algorithms (array vs) = supported_algorithms (values vs)
add_supported_algorithms v = []

-- `Gather_capabilities::run`.
unfoldable pub gather_capabilities : Value → List Algorithm
unfolding add_supported_algorithms find
gather_capabilities raw =
    let caps = find (codes "compression") raw in
    if is_array raw && is_object caps
    then add_supported_algorithms (find (codes "algorithm") caps)
    else []

-- `Setup::prepare_algorithms_to_negotiate`.
unfoldable pub prepare_algorithms_to_negotiate : Option (List Bytes) → List Algorithm
unfolding to_algorithms
prepare_algorithms_to_negotiate (some names) = to_algorithms names
prepare_algorithms_to_negotiate none = zstd_stream ∷ lz4_message ∷ zlib_deflate_stream ∷ []

-- `std::find`.
abbrev pub has_algorithm : List Algorithm → Algorithm → Bool
has_algorithm [] a = false
has_algorithm (b ∷ bs) a = (index b == index a) || has_algorithm bs a

abbrev pub is_empty {ℓ} : {A : Type ℓ} → List A → Bool
is_empty [] = true
is_empty (x ∷ xs) = false

abbrev pub negotiated : Bool → Result Code (Option Algorithm) → Result Code Algorithm
negotiated must (err c) = err c
negotiated must (ok none) = if must then err compression_negotiation_failure else ok none_
negotiated must (ok (some a)) = ok a

-- `Negotiate::run` and what `Setup::negotiate` does next: an error of the server is thrown by
-- `handler_on_error`.
abbrev pub requested :
    Reply → Algorithm → Result Code (Option Algorithm) → Result Code (Option Algorithm)
requested accepted a later = ok (some a)
requested unanswered a later = later
requested raises a later = err server_error

module _ (available : Algorithm → Bool) where
  -- The compressor checkers know the three algorithms only.
  abbrev pub is_compressor_available : Algorithm → Bool
  is_compressor_available none_ = false
  is_compressor_available a = available a

  abbrev pub is_algorithm_supported : List Algorithm → Algorithm → Bool
  is_algorithm_supported server a = has_algorithm server a && is_compressor_available a

  abbrev pub is_any_compressor_available : List Algorithm → Bool
  is_any_compressor_available algorithms = any is_compressor_available algorithms

  module _ (answer : Algorithm → Reply) where
    -- `Setup::negotiate`: the algorithm of the configuration that the server has accepted.
    unfoldable pub negotiate : List Algorithm → List Algorithm → Result Code (Option Algorithm)
    negotiate server [] = ok none
    negotiate server (a ∷ rest) =
        let later = negotiate server rest in
        if is_algorithm_supported server a then requested (answer a) a later else later

    unfoldable pub setup : Bool → List Algorithm → List Algorithm → Result Code Algorithm
    unfolding negotiate
    setup must server algorithms =
        if must && is_empty server
        then err compression_not_supported
        else if must && not (is_any_compressor_available algorithms)
        then err compressor_not_available
        else negotiated must (negotiate server algorithms)

    -- `run_setup`: the algorithm of the configuration, `none_` when compression is off.
    unfoldable pub run_setup : Policy → Option (List Bytes) → Value → Result Code Algorithm
    unfolding setup gather_capabilities prepare_algorithms_to_negotiate
    run_setup disabled names raw = ok none_
    run_setup preferred names raw =
        setup false (gather_capabilities raw) (prepare_algorithms_to_negotiate names)
    run_setup required names raw =
        setup true (gather_capabilities raw) (prepare_algorithms_to_negotiate names)
