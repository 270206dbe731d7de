-- ===== src/Ir.antt =====
-- The IR (src/ir/ir.h, ir.c): types, values, instructions, the builder and the verifier.
pub mod Types
pub mod Data
pub mod Names
pub mod Builder
pub mod Module
pub mod Strings
pub mod Verify
pub mod WellFormed
pub mod Slot
pub mod Operands
pub mod Accepts
pub mod Same
pub mod Aligned
mod Tests
