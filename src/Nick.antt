-- ===== src/Nick.antt =====
-- `CNick` of src/Nick.cpp: a nick with its ident, its host and its permissions in a channel.
mod Defs
pub mod Mask
pub mod Perms
mod Tests
pub use Defs.{Nick}
unfoldable pub use Defs.{
  parse, get_nick_mask, get_host_mask, nick_equals, empty_nick, has_perm, add_perm, rem_perm,
  get_perm_str,
}
