-- ===== src/Parser.antt =====
-- The parser (src/parser/parser.c): one token list to one tree, by recursive descent with recovery.
pub mod State
pub mod Recover
pub mod Types
pub mod Exprs
pub mod Stmts
pub mod Items
pub mod Runs
pub mod Rules
pub mod Total
pub mod Invert
pub mod Starts
pub mod Bounds
pub mod Contract
pub mod Spelling
pub mod Takes
pub mod Spelled
mod Tests
