-- ===== src/Protocol.antt =====
-- What the helper reports is what the integration reads: the two sides of the JSON contract.
pub mod Accepts
pub mod Texts
pub mod Preview
pub mod Previews
pub mod Names
pub mod Maintenance
