-- ===== src/Tranche.antt =====
-- Senior and junior tranches: the request context, limits and queues of a tranche vault.
mod Lanes
mod Context
unfoldable pub use Lanes.*
unfoldable pub use Context.*
