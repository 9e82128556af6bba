-- ===== src/Core.antt =====
-- crates/pyatv-core: features, protocol priority and takeover.
pub mod Features
pub mod Relayer
pub mod Takeover
mod Runs
