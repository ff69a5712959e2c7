-- ===== src/Contract.antt =====
-- custom_components/pi_manager/contract.py: the parsers of the helper's JSON responses. The parts of
-- a response are read by the children; the evaluation order is the source's, field by field.
pub mod Fields
pub mod Parts
pub mod Maintenance
pub mod Status
pub mod Valid
pub mod Bounds
