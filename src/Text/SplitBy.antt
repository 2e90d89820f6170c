-- ===== src/Text/SplitBy.antt =====
-- `CString::Split` and `QuoteSplit` of src/ZNCString.cpp: the parts of a text between delimiters, with
-- quotes inside which a delimiter does not count.
mod Defs
pub mod Quotes
pub mod Spaced
mod Tests
pub use Defs.{SplitOptions}
unfoldable pub use Defs.{split_by, words, quote_split}
