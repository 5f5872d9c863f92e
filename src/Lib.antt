-- ===== src/Lib.antt =====
-- The PHP extension mysql_xdevapi is a client of MySQL's X DevAPI. A script asks for a session by
-- a connection string (xmysqlnd/xmysqlnd_session.cc): the string is split into addresses, which
-- are tried in order of priority; its query is read as options; the session is connected, asks
-- the server for its capabilities, negotiates compression (xmysqlnd/xmysqlnd_compression_setup.cc),
-- sets TLS up and authenticates. A client (mysqlx_client.cc) keeps sessions in a pool and gives
-- closed ones out again after a reset. Column identifiers of the old parser
-- (xmysqlnd/crud_parsers/) are tokenized and parsed to protocol messages.
--
-- Which file models which part:
--   Common           Boolean tests on native numbers, lists, results, texts as lists of bytes.
--   Session          xmysqlnd_session.{h,cc}: st_xmysqlnd_session_state (Session/Defs), send_close
--                    with its statistics, send_reset and reset of a session (Session.antt).
--   Pool             mysqlx_client.cc: the class Connection_pool. Sessions stand in a store under
--                    an address, which is the pointer of the source; each method takes the whole
--                    world and the time and returns the new world. The mutex makes a method one
--                    step; a thread that waits has the result `waits` and goes on by `wake`. A run
--                    of any threads is a list of steps (Pool/History).
--   Clients          mysqlx_client.cc: the options of a client, which a pool is made with.
--   Tokenizer        legacy_tokenizer.cc: get_tokens, one round of its loop being lex_one, whose
--                    parts are numbers, operators, literals in quotes and words.
--   Expression       expression_parser.cc, and the cursor over the tokens of legacy_tokenizer.cc
--                    (consume_token, cur_token_type_is and the others, Expression/Cursors): document
--                    paths (Paths) and columns (Columns); Spelling spells them as tokens.
--   Connect/Compression   xmysqlnd_compression_setup.cc: run_setup over the server's capabilities,
--                    which are values of util/value.h (Connect/Values).
--   Connect/Authenticate  Gather_auth_mechanisms and Authenticate; a run keeps the exchanges that it
--                    has begun, so that their order can be stated.
--   Connect/Addresses     contains_list_of_url and list_of_addresses_parser (Scan holds the brackets
--                    and the round tokens) and the loop of connect_session (Failover).
--   Connect/Options       Extract_client_option, its values (Values; util/strings.cc and
--                    util/string_utils.cc), and the loop of extract_auth_information.
--   Connect/Attributes    parse_attribute, parse_conn_attrib and get_def_client_attribs.
--   Frames           xmysqlnd_protocol_frame_codec.cc: send and receive over a stream of bytes.
--   Rowset           xmysqlnd_rowset_fwd.cc and the rows of handler_on_row_field in xmysqlnd_stmt.cc;
--                    xmysqlnd_rowset_buffered.cc (Buffered). `iterate` is a script's loop.
--   Fields           xmysqlnd_wireprotocol.cc: the decoders of the fields of a row, by the type of
--                    their column (Types); Decimal and Sets hold two of them. DecimalText, SetText,
--                    Numbers and Times prove what they read of the encoding that
--                    proto_def/mysqlx_resultset.proto describes.
--   Payloads         xmysqlnd_compression.cc: the messages in a compressed one.
--   Wire             xmysqlnd_wireprotocol.cc: process_received_message and the loop of
--                    xmysqlnd_receive_message over tables of handlers; Notices tells a statement of
--                    notices, ResultSets holds the handlers of a statement, those of
--                    xmysqlnd_stmt.cc included, Statements get_fwd_result, Requests the other tables.
--                    Answers is the grammar of what a server sends, Closing the warnings by which
--                    it announces that the session ends.
-- Each part has its runs and witnesses in a module Tests, Wire those of Requests in RequestTests
-- and those of Closing in ClosingTests.
--
-- State is passed explicitly: a record in, a record out. An exception is the `err` of a result
-- type, in Wire the ending `thrown` of a call; an exception that is only raised for PHP, after which the C++ code goes on, is a field of
-- the result, but in Connect/Attributes it is not kept. The priority -1 of an address is `none`. A
-- read through the end iterator of a map, or past the fields of a row, is an error of its own,
-- undefined_behaviour.
--
-- Fuel: Tokenizer's loop has a step for each byte and every round takes a byte; the loops of
-- Expression have a step for each token left and one more, and every round takes a token; the loop
-- of Connect/Addresses has two steps more than the string has bytes, since its end lies inside
-- the string and its index grows; the loop of Frames sends a byte in every round but the first;
-- the loop over a row set has a step for each row to come; the loop over the items of a set has a
-- step for each byte of the field and one more, and every round reads a byte. The loop
-- of Payloads has a step for each byte. The loop of Wire recurses on the frames that the network
-- gives.
--
-- Arguments stand for what is not code of this repository or is an answer from outside: the
-- answers of the server, whether a compressor is built in, whether OpenSSL has TLS 1.3, what
-- connecting to an address leads to, boost::lexical_cast<int>, boost::format, how protobuf reads
-- numbers, what php_json_decode makes of a text, and what an authentication plugin answers.
--
-- Not modelled: what protobuf reads and writes, compressors, failed reads of rows, CRUD commands,
-- buffered and skipped results of statements, DNS SRV look-ups, where the attributes stand in a
-- URI, ciphers; the copies of other projects (xmysqlnd/cdkbase), generated protocol code, PHP class
-- registration and property glue, the hashes of the authentication plugins, and the allocator and
-- statistics of PHP.
pub mod Common
pub mod Session
pub mod Pool
pub mod Tokenizer
pub mod Expression
pub mod Connect
pub mod Frames
pub mod Rowset
pub mod Fields
pub mod Wire
pub mod Payloads
pub mod Clients
