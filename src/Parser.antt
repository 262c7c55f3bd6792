-- ===== src/Parser.antt =====
-- internal/parser: the dispatch of telemetry messages.
pub mod Routes
pub mod Longest
pub mod Uptime
pub mod Helpers
pub mod Stored
pub mod Enums
pub mod Platform
pub mod Interfaces
pub mod Packets
pub mod Alarms
pub mod Messages
pub mod Loops
pub mod Answers
pub mod Failures
pub mod Stamps
pub mod Kinds
pub mod Unlabelled
pub mod Names
