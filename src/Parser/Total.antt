-- ===== src/Parser/Total.antt =====
-- The parser's functions one by one (src/parser/parser.c): what each of them keeps.
pub mod Recover
pub mod Types
pub mod Exprs
pub mod Ladder
pub mod Progress
pub mod Stmts
pub mod Control
pub mod Match
pub mod Functions
pub mod Items
