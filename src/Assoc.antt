-- ===== src/Assoc.antt =====
-- An `std::unordered_map` with numbers for keys: an association list with one entry to a key.
mod Laws
mod Defs
unfoldable pub use Defs.{is_some, lookup, contains, emplace, assign, erase, IsMap}
pub use Laws.*
