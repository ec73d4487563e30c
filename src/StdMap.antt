-- ===== src/StdMap.antt =====
-- `std::map<uint64_t, V>`, `std::unordered_map<uint64_t, V>` and `std::set<uint64_t>` (at
-- V = Unit) as the servers use them: the entries in ascending order of their keys.
mod Defs
mod Laws
mod Keys
mod Sizes
mod Sums
unfoldable pub use Defs.*
pub use Laws.*
pub use Keys.*
pub use Sizes.*
pub use Sums.*
