-- ===== src/IrcSock/Caps.antt =====
-- The negotiation of capabilities with the server.
mod Defs
mod Requests
mod Dialog
mod Settled
mod Known
mod Progress
mod Asking
pub mod Negotiation
mod Tests
pub use Defs.{CapState, CapRules}
