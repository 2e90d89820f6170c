-- ===== src/Text/Format.antt =====
-- `CString::NamedFormat` of src/ZNCString.cpp: a template with the values of its fields filled in.
mod Defs
mod Template
mod Tests
unfoldable pub use Defs.{named_format}
pub use Template.{named_format-write_pieces}
