-- ===== src/Windows.antt =====
-- engine/correlation/src/event_windows.cpp: tumbling, sliding, session and hopping windows.
pub mod Aggregation
pub mod Manager
pub mod Session
pub mod Hopping
pub mod Tumbling
pub mod Expiry
mod Tests
