-- ===== src/Buffer.antt =====
-- `CBuffer` of src/Buffer.cpp: the newest lines of a channel or a query, up to a number of lines.
mod Defs
pub mod History
pub mod Update
mod Tests
pub use Defs.{Buffer, BufLine}
unfoldable pub use Defs.{add_line, update_line, update_exact_line, set_line_count}
