-- ===== src/Database.antt =====
-- internal/database/database.go: the rows that are stored and the batch inserts.
pub mod Cells
pub mod Tables
pub mod Platform
pub mod Interface
pub mod Subinterface
pub mod AlarmReport
pub mod NotificationReport
pub mod Alignment
pub mod Inserts
pub mod Integers
pub mod Helpers
