-- ===== src/Updates.antt =====
-- The instructions that add extensions to a vault and change them
-- (programs/async_vault_v2/src/extensions/*/instructions and instructions/*_update.rs).
pub mod Initialize
pub mod Immediate
pub mod Extension
pub mod Fees
pub mod Effects
pub mod Delay
pub mod Shape
pub mod Reachable
