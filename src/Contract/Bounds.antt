-- ===== src/Contract/Bounds.antt =====
-- What a parsed value of the contract satisfies: texts are short, numbers are finite and not
-- negative. The children carry it through the parts and the whole status.
pub mod Parts
pub mod Maintenance
pub mod Status
