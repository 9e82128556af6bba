-- ===== src/Mrp.antt =====
-- crates/pyatv-proto-mrp: the length prefix of MRP frames.
pub mod Variant
mod Runs
