-- ===== src/Parser/Platform.antt =====
-- The handlers for components.
pub mod Components
pub mod Aspects
pub mod Handlers
pub mod Agreement
