-- ===== src/Integration/Bootstrap.antt =====
-- custom_components/pi_manager/bootstrap.py: the helper, its policy and its keys brought to a host.
pub mod Session
pub mod Install
pub mod Whole
pub mod Commands
pub mod Policy
pub mod Apart
pub mod Opened
pub mod Verified
pub mod Tracked
pub mod Noted
pub mod Removed
