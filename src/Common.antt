-- ===== src/Common.antt =====
-- common/: the types, the memory pool and the queue that all components share.
pub mod Fault
pub mod Types
pub mod MemPool
pub mod OptMemPool
pub mod LfQueue
mod Examples
