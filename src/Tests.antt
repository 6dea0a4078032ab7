-- ===== src/Tests.antt =====
-- Concrete sessions and packets, and what the theorems say of them.
pub mod Data
pub mod Numbers
pub mod Wire
pub mod Queues
pub mod Sessions
pub mod Datagrams
pub mod Loops
pub mod Downlink
pub mod Threads
