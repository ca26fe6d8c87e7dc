-- ===== src/Governance.antt =====
-- Who may change a vault's configuration, and when (programs/async_vault_v2/src/instructions:
-- update_vault.rs, queue_vault_update.rs, execute_vault_update.rs, cancel_vault_update.rs,
-- pause_vault.rs, invite_new_authority.rs, accept_authority_invitation.rs).
mod Config
mod Timelock
mod Roles
pub mod Delay
pub mod Succession
unfoldable pub use Config.*
unfoldable pub use Timelock.*
unfoldable pub use Roles.*
