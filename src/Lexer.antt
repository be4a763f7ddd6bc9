-- ===== src/Lexer.antt =====
-- internal/lexer: the tokenizer.
pub mod Token
pub mod Chars
pub mod Regex
pub mod Strings
pub mod Numbers
pub mod Next
pub mod Progress
pub mod Closing
pub mod RoundTrip
pub mod Skipping
pub mod Numerals
mod Tests
mod Witnesses
