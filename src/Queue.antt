-- ===== src/Queue.antt =====
-- The queues of common/system: queue.go's slots and queue_enhance.go's slots behind locks.
pub mod Slots
pub mod Fifo
pub mod Locked
mod Counted
pub mod Exclusive
pub mod Drained
