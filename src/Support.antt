-- ===== src/Support.antt =====
-- The containers and utilities of src/support that every pass shares.
pub mod StrView
pub mod Map
pub mod Vec
pub mod Arena
pub mod Diag
mod Tests
