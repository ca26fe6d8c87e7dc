-- ===== src/Fee.antt =====
-- Fees: `FeeType` (libs/vault_common/src/fee.rs), the protocol's share of a fee
-- (programs/async_vault_v2/src/utils.rs) and the fee extensions
-- (programs/async_vault_v2/src/extensions/fee/processor.rs).
mod Types
pub mod Codec
mod Split
pub mod Bounds
pub mod Charge
unfoldable pub use Types.*
unfoldable pub use Codec.*
unfoldable pub use Split.*
