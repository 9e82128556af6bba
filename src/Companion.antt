-- ===== src/Companion.antt =====
-- crates/pyatv-proto-companion: the frames of the Companion protocol.
pub mod Frame
pub mod Codec
pub mod Protocol
pub mod Message
mod Runs
