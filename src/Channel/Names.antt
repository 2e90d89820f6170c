-- ===== src/Channel/Names.antt =====
-- `AddNick`, `AddNicks` and `GetPermCounts` of `CChan`: the names that a server lists for a channel.
pub mod Defs
pub mod Listed
pub mod Stored
