-- ===== src/Network/Server/Line.antt =====
-- `GetString` and `Parse` of `CServer`: a server as one line of text.
mod Defs
pub mod RoundTrip
unfoldable pub use Defs.{get_string, parse_server}
