-- ===== src/Agent.antt =====
-- custom_components/pi_manager/remote/pi_manager_agent.py: the helper that runs as root.
pub mod Constants
pub mod Names
pub mod Measures
pub mod World
pub mod Keeps
pub mod Post
pub mod Commands
pub mod Jobs
pub mod Library
pub mod Services
pub mod Config
pub mod Distinct
pub mod Configure
pub mod Configured
pub mod Trust
pub mod Sudoers
pub mod Upgrade
pub mod Maintenance
pub mod Status
pub mod Main
pub mod Frame
pub mod Safety
