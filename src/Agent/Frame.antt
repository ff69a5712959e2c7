-- ===== src/Agent/Frame.antt =====
-- Invariants of the host: what the operations keep, from what their steps keep.
pub mod Steps
pub mod Handlers
pub mod Operations
pub mod Status
pub mod Trust
pub mod Upgrade
pub mod All
