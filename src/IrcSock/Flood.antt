-- ===== src/IrcSock/Flood.antt =====
-- The queue of messages to the server and its flood protection.
mod Defs
mod Rounds
mod Wire
mod Events
pub mod Limit
pub mod Order
pub mod Stalled
mod Tests
pub use Defs.{SendQueue, Outside}
