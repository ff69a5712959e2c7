-- ===== src/Integration.antt =====
-- The side of Home Assistant: custom_components/pi_manager without the helper.
pub mod Validation
pub mod Sudoers
pub mod Runtime
pub mod Actions
pub mod Upgrade
pub mod Ssh
pub mod KeyStore
pub mod Bootstrap
pub mod Coordinator
pub mod Discovery
pub mod Sensors
