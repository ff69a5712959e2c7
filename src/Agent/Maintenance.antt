-- ===== src/Agent/Maintenance.antt =====
-- The maintenance queries of the helper, what they store, and the part of a status that shows it.
pub mod Counts
pub mod Query
pub mod Public
