-- ===== src/Setup.antt =====
-- The calls that set a vault up: its creation, its tranches and the assets it accepts.
pub mod Mints
pub mod Creation
pub mod Tranches
pub mod Assets
pub mod Guarantees
pub mod Protocol
