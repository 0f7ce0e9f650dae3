-- ===== src/Server/Api.antt =====
-- The handlers of internal/server that read and change the configuration.
pub mod Wg
pub mod Settings
pub mod Bird
pub mod Status
pub mod Routing
pub mod Steps
pub mod Reload
