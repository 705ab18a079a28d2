-- ===== src/Flows.antt =====
-- collectors/pcap: the flow tracker.
pub mod Packet
pub mod Bounds
pub mod Stats
pub mod Features
pub mod Tracker
pub mod Invariant
pub mod Preservation
pub mod Expiry
mod Tests
pub mod Keys
