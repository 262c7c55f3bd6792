-- ===== src/Parser/Interfaces.antt =====
-- The handlers for interfaces and subinterfaces.
pub mod Fields
pub mod SubFields
pub mod Handlers
pub mod SubHandlers
