-- ===== src/Raop.antt =====
-- crates/pyatv-proto-airplay/src/raop: the parts of audio streaming that keep state.
pub mod Fifo
mod Runs
