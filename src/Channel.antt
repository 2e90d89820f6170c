-- ===== src/Channel.antt =====
-- `CChan` of src/Chan.cpp: the modes and the nicks of a channel.
pub mod Defs
mod Modes
pub mod Restore
pub mod ModeText
pub mod Names
pub mod Nicks
mod Tests
pub use Defs.{Chan, ModeTable, ModeArgs}
unfoldable pub use Defs.{get_perm_from_mode, get_mode_type}
