-- ===== src/Agent/Safety.antt =====
-- What holds of the helper over every operation.
pub mod Commands
pub mod Trust
pub mod Files
