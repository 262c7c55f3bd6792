-- ===== src/Collector.antt =====
-- internal/collector/simple_collector.go.
pub mod Connections
pub mod Counting
pub mod Publishing
pub mod Accounts
pub mod Ids
pub mod Serving
pub mod Streams
pub mod Leaving
