-- ===== src/Models/Tags.antt =====
-- The tags of the structs of internal/models/models.go.
pub mod Platform
pub mod Interface
pub mod Subinterface
pub mod Alarm
