-- ===== src/Ring.antt =====
-- dpdk_ring: a bounded FIFO of pointers over a table whose size is a power of two.
pub mod State
pub mod Table
pub mod Head
pub mod Calls
pub mod Api
pub mod Copied
pub mod Filled
pub mod Window
pub mod Queue
pub mod Valid
pub mod Enqueue
pub mod Dequeue
pub mod History
pub mod Query
pub mod Create
mod Tests
