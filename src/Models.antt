-- ===== src/Models.antt =====
-- The data model of internal/models/models.go.
pub mod Tags
pub mod Values
pub mod Platform
pub mod Interface
pub mod Alarm
unfoldable pub use Values.*
pub use Platform.*
pub use Interface.*
pub use Alarm.*
pub mod Enums
pub mod Floats
