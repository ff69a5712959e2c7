-- ===== src/Agent/Measures.antt =====
-- `_memory`, `_unescape_mount`, `_filesystems` and `_network`: what the helper reads of /proc and /sys.
pub mod Filesystems
pub mod Sound
