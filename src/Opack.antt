-- ===== src/Opack.antt =====
-- crates/pyatv-opack: Apple's OPACK serialisation.
pub mod Tags
pub mod Value
pub mod Objects
pub mod Ser
pub mod De
pub mod Spec
pub mod Leaf
pub mod Reads
pub mod Sync
pub mod RoundTrip
mod Runs
