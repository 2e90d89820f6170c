-- ===== src/IrcSock.antt =====
-- `CIRCSock` of src/IRCSock.cpp: the connection of a network to its IRC server.
pub mod Flood
pub mod Caps
pub mod Support
pub mod AltNick
