-- ===== src/Text/Wild.antt =====
-- `CString::WildCmp` of src/ZNCString.cpp, and what it means for a text to match a wildcard.
mod Search
pub mod Relation
pub mod Correct
mod Tests
pub use Search.{Outcome, answer, fold_case}
unfoldable pub use Search.{wild_cmp}
