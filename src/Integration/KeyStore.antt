-- ===== src/Integration/KeyStore.antt =====
-- custom_components/pi_manager/key_store.py: the key pair and the upgrade secret of each machine.
pub mod Files
pub mod Operations
pub mod Written
