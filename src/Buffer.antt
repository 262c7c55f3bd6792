-- ===== src/Buffer.antt =====
-- internal/buffer.
pub mod Keys
pub mod Sharded
pub mod Merge
pub mod Retry
pub mod Lane
pub mod Manager
