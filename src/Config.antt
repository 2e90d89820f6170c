-- ===== src/Config.antt =====
-- `CConfig` of src/Config.cpp: a configuration with its parser and its writer.
mod Defs
mod Parse
mod Write
mod Lines
mod Entries
mod Tags
mod Values
mod Order
mod Find
pub mod Drain
pub mod RoundTrip
mod Tests
pub use Defs.{Config, Blocks}
