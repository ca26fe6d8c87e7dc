-- ===== src/Instant.antt =====
-- Settlement at once (programs/async_vault_v2/src/instructions/instant_deposit.rs and
-- instant_redeem.rs): the limits of a user, the payment of fees, and the two handlers.
pub mod Users
pub mod Fees
pub mod Deposit
pub mod Redeem
pub mod Tokens
mod Steps
pub mod Effects
pub mod Comparison
