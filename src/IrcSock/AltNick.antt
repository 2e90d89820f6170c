-- ===== src/IrcSock/AltNick.antt =====
-- The nick that is asked for behind one that the server refused.
mod Defs
mod Same
mod Steps
mod Refused
pub mod Order
pub mod Stuck
mod Tests
