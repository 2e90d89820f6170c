-- ===== src/Text/Escape.antt =====
-- `CString::Escape_n` of src/ZNCString.cpp: one character is read by the rules of the format it comes
-- from, and written by the rules of the format it goes to.
mod Read
mod Write
mod Loop
mod Hex
mod Flat
mod RoundTrip
mod Trailing
mod Clean
mod Tests
pub use Read.{EscapeKind, html, ascii, url, sql, named_fmt, debug, msg_tag, hex_colon}
pub use Flat.{is_special, write_named_fmt_lem}
pub use RoundTrip.{flat, escape_n-flat, escape_n-escape_n}
pub use Write.{write_char}
pub use Trailing.{escape_n_trailing}
pub use Clean.{escape_n-Lacks}
unfoldable pub use Loop.{escape_n}
