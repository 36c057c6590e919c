-- ===== src/Threading.antt =====
-- common/Threading: the queues between threads.
pub mod IntrusiveQueue
pub mod LockedQueue
pub mod MpscQueue
pub mod ProducerConsumerQueue
