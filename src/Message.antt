-- ===== src/Message.antt =====
-- `CMessage` of src/Message.cpp: one line of the IRC protocol, taken apart and put together.
pub mod Defs
pub mod Kind
pub mod Parse
mod Print
mod Words
mod Params
mod ParamRange
mod Tags
pub mod RoundTrip
mod Tests
pub use Defs.{Message, MessageType}
unfoldable pub use Kind.{init_type}
unfoldable pub use Parse.{parse_line}
unfoldable pub use Print.{to_string, get_params_colon}
