-- ===== src/Stream.antt =====
-- engine/correlation: the stream processor, which feeds the correlation engine and the windows.
pub mod Processor
pub mod Detector
pub mod Sending
pub mod Runs
pub mod Turns
pub mod Invariant
mod Tests
