-- ===== src/Pool.antt =====
-- vpn/com_lib/mem_lib and pools/mem_pool: the pools of blocks, over an explicit memory.
pub mod Memory
pub mod Paged
pub mod Fixed
mod Tests
