-- ===== src/Parser.antt =====
-- internal/parser/parser.go: the Pratt parser.
pub mod Tokens
pub mod Monad
pub mod Parts
pub mod Infix
pub mod Expression
pub mod Formed
pub mod Returns
pub mod Steps
pub mod Loops
pub mod Trees
pub mod Prefix
pub mod Operands
pub mod Nud
pub mod Operators
pub mod Led
pub mod Correct
pub mod Source
pub mod Outcome
pub mod Precedence
mod Tests
