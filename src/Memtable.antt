-- ===== src/Memtable.antt =====
-- storage/hot: the in-memory write buffer.
pub mod Table
pub mod Order
pub mod Scans
pub mod Store
mod Tests
