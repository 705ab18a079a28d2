-- ===== src/Ring.antt =====
-- collectors/common/include/aiguard/common/circular_buffer.h: the buffers between threads.
pub mod Buffer
pub mod Slots
pub mod Queue
pub mod Refinement
pub mod Lockfree
pub mod Interleaving
mod Tests
