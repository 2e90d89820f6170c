-- ===== src/Text/Number.antt =====
-- Decimal numbers in texts: the constructors of `CString` from an unsigned number, and `ToULong`,
-- `ToUInt` and `ToUShort` of src/ZNCString.cpp, over `operator<<` and `strtoul` of the C++ library.
mod Defs
pub mod RoundTrip
mod Tests
unfoldable pub use Defs.{of_number, to_ulong, to_uint, to_ushort}
