-- ===== src/Network/Servers.antt =====
-- The server list of `CIRCNetwork` in src/IRCNetwork.cpp: which server is tried next, and which one is
-- the current one.
mod Defs
pub mod Rotation
pub mod Removal
pub mod Advance
pub mod Reach
mod Tests
pub use Defs.{ServerList}
