-- ===== src/State.antt =====
-- The accounts and the checks on them (programs/async_vault_v2/src/state).
mod Accounts
mod Checks
mod Config
unfoldable pub use Accounts.*
unfoldable pub use Checks.*
unfoldable pub use Config.*
