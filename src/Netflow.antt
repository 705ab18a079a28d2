-- ===== src/Netflow.antt =====
-- collectors/netflow: the parser of NetFlow v5, v9 and IPFIX packets.
pub mod V5
pub mod Templates
pub mod Sets
pub mod Loops
mod Tests
