-- ===== src/Server.antt =====
-- internal/server: the web process.
pub mod Logs
pub mod Auth
pub mod Site
pub mod Api
pub mod Mux
