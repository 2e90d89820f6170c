-- ===== src/Text/Token.antt =====
-- `CString::Token` of src/ZNCString.cpp: the word at a place of a text, or all from there on.
mod Defs
mod Words
mod Tests
unfoldable pub use Defs.{token}
pub use Words.{Starts, token-first, token-only, token-rest, token-next, token-last}
