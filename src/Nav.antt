-- ===== src/Nav.antt =====
-- Publishing a new net asset value (programs/async_vault_v2/src/instructions/update_nav.rs and the
-- guards `validate_nav_update` of src/state/async_vault_v2.rs).
mod Guards
mod Waterfall
mod PerformanceFee
mod Update
pub mod Conservation
pub mod Dilution
pub mod Effects
unfoldable pub use Guards.*
unfoldable pub use Waterfall.*
unfoldable pub use PerformanceFee.*
unfoldable pub use Update.*
