-- ===== src/Lexer/Progress.antt =====
-- Where a call of `Next` ends.
pub mod Parts
pub mod Branches
pub mod Total
