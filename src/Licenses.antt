-- ===== src/Licenses.antt =====
-- src/licenses: the versions that a perpetual licence covers, and the devices that it runs on.
pub mod Version
pub mod Activation
pub mod Policy
pub mod Perpetual
pub mod Validation
pub mod Upgrade
mod Tests
