-- ===== src/Lexer.antt =====
-- The lexer (src/lexer/lexer.h, lexer.c): source bytes to tokens.
pub mod Kind
pub mod State
pub mod Literal
pub mod Next
pub mod Takes
pub mod Scans
pub mod Branches
pub mod Tokens
pub mod Position
pub mod Stream
pub mod Number
pub mod Munch
mod Tests
