-- ===== src/Lock.antt =====
-- vpn/com_lib/lock_lib: a reader-writer lock and a spin lock on one atomic word, under any
-- interleaving of any number of threads.
pub mod Counter
pub mod Threads
pub mod ReadWrite
pub mod ReadWriteSafe
pub mod Spin
mod Tests
