-- ===== src/Sstable.antt =====
-- storage/hot: sorted tables on disk, with their bloom filters.
pub mod Bloom
pub mod Positives
pub mod Table
pub mod Reading
pub mod Lookup
pub mod Flush
pub mod Scan
pub mod Reopen
pub mod Indexes
pub mod Durable
mod Tests
