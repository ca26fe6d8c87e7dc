-- ===== src/Tlv.antt =====
-- The type-length-value region behind a vault's account and a request's
-- (programs/async_vault_v2/src/extensions/tlv.rs).
pub mod Raw
pub mod Types
pub mod Runs
mod Overwriting
pub mod Termination
pub mod Region
pub mod Typed
pub mod Storage
pub mod Persistence
pub mod Instances
pub mod RoundTrip
pub mod Requests
