-- ===== src/Sema.antt =====
-- What the checker of src/sema/ keeps: the resolved types and the names in scope.
pub mod Types
pub mod Scope
pub mod Convert
pub mod Diverge
pub mod Check
mod Tests
