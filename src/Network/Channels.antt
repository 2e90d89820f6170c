-- ===== src/Network/Channels.antt =====
-- The channel list of `CIRCNetwork` in src/IRCNetwork.cpp, and the messages that join channels.
mod Defs
mod Join
mod Lines
pub mod Rounds
mod Distinct
mod Pick
pub mod Limits
pub mod Reach
mod Tests
pub use Defs.{ListedChan}
