-- ===== src/Strategy.antt =====
-- Strategy policies: their life cycle, the Merkle proofs of allowed actions, and the managed call
-- (programs/async_vault_v2/src/instructions/*strategy_policy*.rs and
-- manage_vault_with_merkle_verification.rs, programs/async_vault_v2/src/utils/merkle.rs).
pub mod Policy
pub mod Versions
pub mod Merkle
pub mod Proofs
pub mod Binding
pub mod Manage
pub mod Guarantees
