-- ===== src/Map.antt =====
-- Go's `map[K]V`: an association list behind the laws of a map. The order in which Go iterates is
-- not specified; here it is that of the entries, and theorems about an iteration speak of lookups.
pub mod Entries
mod Defs
mod Laws
pub use Entries.{keep}
pub use Defs.{Map}
unfoldable pub use Defs.{empty, lookup, insert, delete, retain, size, values}
pub use Laws.*
