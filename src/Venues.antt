-- ===== src/Venues.antt =====
-- Venues of the vault's assets: their registry, the vault's approvals, the positions that its manager
-- opens in them, and external withdrawals (programs/async_vault_v2/src/instructions/*venue*.rs and
-- withdraw_assets.rs).
pub mod Registry
pub mod Accounts
pub mod Moves
pub mod Slots
pub mod Transfers
pub mod Effects
pub mod Portfolio
pub mod Counts
pub mod Backing
pub mod Withdraw
mod Chunks
pub mod Permissions
pub mod WithdrawLimit
