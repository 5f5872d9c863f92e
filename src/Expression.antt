-- ===== src/Expression.antt =====
-- The parser of column identifiers, xmysqlnd/crud_parsers/expression_parser.cc, and the cursor
-- over the tokens that it moves, the class Tokenizer of legacy_tokenizer.cc. A cursor is the
-- tokens before `_pos`, the last one first, and those from `_pos` on. boost::lexical_cast<int> is
-- the argument `lexical_cast`; the loops run on fuel, one step for each token and one more.
pub mod Cursors
pub mod Paths
pub mod Columns
pub mod Progress
pub mod ColumnProgress
pub mod Spelling
pub mod Print
pub mod ColumnPrint
pub mod Tests
