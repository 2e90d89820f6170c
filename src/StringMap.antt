-- ===== src/StringMap.antt =====
-- `std::map<CString, V>`, as `MCString` and others keep it: entries in ascending order of their keys,
-- which is the order that `std::string::operator<` gives and that a loop over the map follows.
mod Order
mod Defs
mod Laws
mod Last
pub use Defs.{StringMap, IsSorted}
unfoldable pub use Defs.{find, insert, erase}
unfoldable pub use Order.{lt_bytes}
pub use Order.{lt_bytes_asymm}
pub use Last.{IsAbove, find-IsAbove, find-last, insert-IsAbove, insert-replace, IsSorted-IsAbove}
pub use Laws.{erase-insert, find-inserted, find-insert, find-erase, insert-IsSorted, insert-last}
