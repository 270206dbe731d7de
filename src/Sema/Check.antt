-- ===== src/Sema/Check.antt =====
-- The checker (src/sema/sema.c): its state, the resolution of types, the bodies, the whole program.
pub mod State
pub mod Tree
pub mod Coerce
pub mod Layout
pub mod Ops
pub mod Exprs
pub mod Stmts
pub mod Collect
pub mod Program
pub mod Ready
pub mod Rules
pub mod Whole
pub mod Total
pub mod Contract
pub mod Start
mod Tests
