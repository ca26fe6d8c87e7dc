-- ===== src/Requests.antt =====
-- The life of an async request (programs/async_vault_v2/src/instructions).
pub mod World
pub mod Backing
pub mod Lifecycle
pub mod Payout
mod Ordering
mod Create
mod Refund
mod JuniorFloor
mod FeeAccounts
mod Queued
mod Claim
mod Approve
unfoldable pub use World.*
unfoldable pub use Ordering.*
unfoldable pub use Create.*
unfoldable pub use Refund.*
unfoldable pub use JuniorFloor.*
unfoldable pub use FeeAccounts.*
unfoldable pub use Queued.*
unfoldable pub use Claim.*
unfoldable pub use Approve.*
