-- ===== src/Sync.antt =====
-- kernel/sync.c: the blocking primitives.
pub mod Block
pub mod Sem
pub mod Mutex
pub mod Queue
pub mod Event
