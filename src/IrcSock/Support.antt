-- ===== src/IrcSock/Support.antt =====
-- What the server says that it supports, in the replies 005.
mod Defs
mod Tables
mod Reply
pub mod Announced
pub mod Reach
mod Tests
pub use Defs.{Support}
