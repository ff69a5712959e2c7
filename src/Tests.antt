-- ===== src/Tests.antt =====
-- The theorems on concrete inputs, and tests of the text functions.
pub mod Samples
pub mod Helper
pub mod Client
pub mod SignedUpgrade
pub mod Texts
pub mod Document
pub mod Upgrades
pub mod Ssh
pub mod Keys
pub mod Bootstrap
pub mod Hosts
pub mod Mounts
