-- ===== src/Sync.antt =====
-- The components in which threads share state.
pub mod BoundedQueue
pub mod CircularBuffer
