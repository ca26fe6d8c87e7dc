-- ===== src/Tlv/Region.antt =====
-- What a region of entries followed by zeros stands for: an association list from type numbers to
-- values, and the operations of the source on it.
mod Entries
mod Loops
mod Writes
pub use Entries.*
pub use Loops.*
pub use Writes.*
