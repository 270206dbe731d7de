-- ===== src/Sema/Check/Total.antt =====
-- What each function of the checker (src/sema/sema.c) keeps.
pub mod Types
pub mod Names
pub mod Layout
pub mod Coerce
pub mod Ops
pub mod Unary
pub mod Leaves
pub mod Exprs
pub mod Check
pub mod Expected
pub mod Scoped
pub mod Stmts
pub mod Blocks
pub mod Program
