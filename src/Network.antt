-- ===== src/Network.antt =====
-- `CIRCNetwork` of src/IRCNetwork.cpp and what belongs to it: the servers and the
-- channels of a network.
pub mod Server
pub mod Servers
pub mod Channels
