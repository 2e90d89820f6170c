-- ===== src/Text.antt =====
-- `CString` of src/ZNCString.cpp: character classes, comparison, trimming, tokens, escaping,
-- wildcards and named formats, over lists of bytes.
pub mod Ctype
pub mod Split
pub mod Trim
pub mod Token
pub mod SplitBy
pub mod Number
pub mod Compare
pub mod Escape
pub mod Format
pub mod Wild
mod Tests
